-- ===== src/Config.antt =====
-- internal/config/config.go: the configuration and its validation. YAML decoding is a library's; the
-- model begins with the decoded structure. A nil slice is `none`.
pub mod Validation
use locksmith.Common.{
  ℕ, ◌+◌, ◌≡◌, Bool, true, false, not, ◌&&◌, ◌||◌, List, [], ◌∷◌, ◌++◌, Option, none, some, Result,
  ok, err, ltb, drop, ◌==◌, if◌then◌else◌, ◌>>=◌,
}
use locksmith.Common.Text.{Text, codes, text_eq, is_empty, has_prefix}
use locksmith.Common.Paths.{join_path}
use locksmith.Common.Assoc.{Map, lookup}

pub record Defaults : Type 0 where
  pub session_ttl : Text
  pub socket_path : Text

pub record Logging : Type 0 where
  pub level : Text
  pub format : Text
  pub file : Text

pub record AgentConfig : Type 0 where
  pub pass_session_to_subagents : Option Bool

pub record Vault : Type 0 where
  pub vault_type : Text
  pub store : Text
  pub account : Text
  pub service : Text

pub record Key : Type 0 where
  pub vault : Text
  pub path : Text

pub record McpEnvValue : Type 0 where
  pub key_alias : Text
  pub vault_name : Text
  pub path : Text

pub record McpServerConfig : Type 0 where
  pub command : Option (List Text)
  pub env : Map McpEnvValue
  pub url : Text
  pub transport : Text
  pub headers : Map Text

pub record Config : Type 0 where
  pub defaults : Defaults
  pub logging : Logging
  pub agent : AgentConfig
  pub vaults : Map Vault
  pub keys : Map Key
  pub servers : Map McpServerConfig

pub data Error : Type 0 where
  unknown_vault : Text → Text → Error
  empty_path : Text → Error
  too_many_segments : Text → Text → Error
  no_target : Text → Error
  two_targets : Text → Error
  bad_transport : Text → Error

-- PassSubagents
unfoldable pub pass_subagents : AgentConfig → Bool
pass_subagents a = elim a.pass_session_to_subagents [ none ↦ true | some b ↦ b ]

-- ExpandPath. The first argument is what os.UserHomeDir returns.
unfoldable pub expand_path : Option Text → Text → Text
expand_path home path =
    if has_prefix path (codes "~/")
    then elim home [ none ↦ path | some h ↦ join_path h (drop 2 path) ]
    else path

unfoldable pub or_default : Text → Text → Text
or_default s d = if is_empty s then d else s

-- The defaults that Validate fills in.
unfoldable pub apply_defaults : Option Text → Config → Config
apply_defaults home c = record c {
  defaults = record {
    session_ttl = or_default c.defaults.session_ttl (codes "3h");
    socket_path =
        or_default c.defaults.socket_path
          (expand_path home (codes "~/.config/locksmith/locksmith.sock"));
  };
  logging = record {
    level = or_default c.logging.level (codes "info");
    format = or_default c.logging.format (codes "text");
    file = c.logging.file;
  };
}

-- strings.Count(s, "/")
unfoldable pub count_slashes : Text → ℕ
count_slashes [] = 0
count_slashes (c ∷ s) = (if c == b'/' then 1 else 0) + count_slashes s

abbrev pub vault_keychain : Text
vault_keychain = codes "keychain"

-- One round of the loop over the keys.
unfoldable pub check_key : Map Vault → Text → Key → Result Error (Unit {0})
check_key vaults name key = elim (lookup key.vault vaults) [
  | none ↦ err (unknown_vault name key.vault)
  | some def ↦
      if is_empty key.path
      then err (empty_path name)
      else if text_eq def.vault_type vault_keychain && ltb 1 (count_slashes key.path)
      then err (too_many_segments name key.path)
      else ok tt
]

unfoldable pub check_keys : Map Vault → Map Key → Result Error (Unit {0})
check_keys vaults [] = ok tt
check_keys vaults ((name, key) ∷ rest) =
    let later = check_keys vaults rest in check_key vaults name key >>= λ _. later

-- One round of the loop over the MCP servers.
unfoldable pub is_nil : Option (List Text) → Bool
is_nil none = true
is_nil (some c) = false

unfoldable pub check_server : Text → McpServerConfig → Result Error (Unit {0})
check_server name server =
    if is_nil server.command && is_empty server.url
    then err (no_target name)
    else if not (is_nil server.command) && not (is_empty server.url)
    then err (two_targets name)
    else if not (is_empty server.transport)
        && (not (text_eq server.transport (codes "auto"))
            && (not (text_eq server.transport (codes "sse"))
                && not (text_eq server.transport (codes "http"))))
    then err (bad_transport name)
    else ok tt

unfoldable pub check_servers : Map McpServerConfig → Result Error (Unit {0})
check_servers [] = ok tt
check_servers ((name, server) ∷ rest) =
    let later = check_servers rest in check_server name server >>= λ _. later

-- Validate: the configuration with its defaults, and the error. The defaults stay on an error too.
unfoldable pub validate : Option Text → Config → Config × Result Error (Unit {0})
validate home c =
    let c' = apply_defaults home c in
    (c', check_keys c'.vaults c'.keys >>= λ _. check_servers c'.servers)

-- LoadFromBytes, behind the YAML decoder: only a valid configuration is returned.
unfoldable pub load_decoded : Option Text → Config → Result Error Config
load_decoded home c = let (c', r) = validate home c in r >>= λ _. ok c'
