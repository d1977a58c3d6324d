-- ===== src/Config/Validation.antt =====
-- What a configuration that passes Validate of internal/config/config.go promises.
use locksmith.Common.{
  ◌≤◌, ◌≡◌, ◌≢◌, refl, subst, ◌⊎◌, ◌↔◌, Bool, true, false, [], ◌∷◌, inl, inr, Option, none, some,
  ok, arith, if◌then◌else◌, All, Bool-cases, Option-cases, Result-cases,
}
use locksmith.Common.Text.{Text, codes, text_eq_iff, is_empty, is_empty_iff}
use locksmith.Common.Assoc.{Map, lookup}
use locksmith.Config.{
  Vault, Key, McpServerConfig, Config, expand_path, or_default, apply_defaults, count_slashes,
  vault_keychain, check_key, check_keys, is_nil, check_server, check_servers, validate,
  load_decoded,
}

-- The key's vault is configured, and its path is set and, in a keychain, at most "service/account".
pub record IsKey (vaults : Map Vault) (key : Key) : Type 0 where
  pub def : Vault
  pub configured : lookup key.vault vaults ≡ some def
  pub has_path : key.path ≢ []
  pub flat : def.vault_type ≡ vault_keychain → count_slashes key.path ≤ 1

-- Exactly one of command and url is set, and the transport is a known one or unset.
pub record IsServer (server : McpServerConfig) : Type 0 where
  pub one_target :
      ((server.command ≢ none) × (server.url ≡ [])) ⊎ ((server.command ≡ none) × (server.url ≢ []))
  pub known :
      (server.transport ≡ [])
      ⊎ ((server.transport ≡ codes "auto")
          ⊎ ((server.transport ≡ codes "sse") ⊎ (server.transport ≡ codes "http")))

check_key-IsKey :
    (vaults : Map Vault) (n : Text) (key : Key) → check_key vaults n key ≡ ok tt → IsKey vaults key
unfolding check_key
check_key-IsKey vaults n key e = elim (Option-cases (lookup key.vault vaults)) [
  | inl missing ↦ absurd (cc (rw (missing, check_key) at e))
  | inr (def, there) ↦ record {
    def = def;
    configured = there;
    has_path = λ p. ground (arith, is_empty_iff key.path, there);
    flat = λ k.
        ground (arith, is_empty_iff key.path, text_eq_iff def.vault_type vault_keychain, there);
  }
]

IsKey-check_key :
    (vaults : Map Vault) (n : Text) (key : Key) → IsKey vaults key → check_key vaults n key ≡ ok tt
unfolding check_key
IsKey-check_key vaults n key k =
    rw (k.configured, check_key)
      (ground (
        arith,
        is_empty_iff key.path,
        text_eq_iff k.def.vault_type vault_keychain,
        k.flat,
        k.has_path,
      ))

check_server-IsServer :
    (n : Text) (server : McpServerConfig) → check_server n server ≡ ok tt → IsServer server
unfolding check_server is_nil
check_server-IsServer n server e = record {
  one_target = ground (arith, is_empty_iff server.url);
  known = ground (
    arith,
    is_empty_iff server.transport,
    text_eq_iff server.transport (codes "auto"),
    text_eq_iff server.transport (codes "sse"),
    text_eq_iff server.transport (codes "http"),
  );
}

IsServer-check_server :
    (n : Text) (server : McpServerConfig) → IsServer server → check_server n server ≡ ok tt
unfolding check_server is_nil
IsServer-check_server n server s = ground (
  arith,
  s.one_target,
  s.known,
  is_empty_iff server.url,
  is_empty_iff server.transport,
  text_eq_iff server.transport (codes "auto"),
  text_eq_iff server.transport (codes "sse"),
  text_eq_iff server.transport (codes "http"),
)

check_keys-All :
    (vaults : Map Vault) (keys : Map Key)
    → check_keys vaults keys ≡ ok tt
    → All (λ (e : Text × Key). IsKey vaults e.1) keys
unfolding check_keys
check_keys-All vaults [] e = tt
check_keys-All vaults ((n, key) ∷ rest) e = elim (Result-cases (check_key vaults n key)) [
  | inr (x, failed) ↦ absurd (cc (rw failed at e))
  | inl (u, passed) ↦
      (check_key-IsKey vaults n key passed, check_keys-All vaults rest (rw passed at e))
]

All-check_keys :
    (vaults : Map Vault) (keys : Map Key)
    → All (λ (e : Text × Key). IsKey vaults e.1) keys
    → check_keys vaults keys ≡ ok tt
unfolding check_keys
All-check_keys vaults [] h = refl
All-check_keys vaults ((n, key) ∷ rest) h =
    rw (IsKey-check_key vaults n key h.0) (All-check_keys vaults rest h.1)

check_servers-All :
    (servers : Map McpServerConfig)
    → check_servers servers ≡ ok tt
    → All (λ (e : Text × McpServerConfig). IsServer e.1) servers
unfolding check_servers
check_servers-All [] e = tt
check_servers-All ((n, server) ∷ rest) e = elim (Result-cases (check_server n server)) [
  | inr (x, failed) ↦ absurd (cc (rw failed at e))
  | inl (u, passed) ↦
      (check_server-IsServer n server passed, check_servers-All rest (rw passed at e))
]

All-check_servers :
    (servers : Map McpServerConfig)
    → All (λ (e : Text × McpServerConfig). IsServer e.1) servers
    → check_servers servers ≡ ok tt
unfolding check_servers
All-check_servers [] h = refl
All-check_servers ((n, server) ∷ rest) h =
    rw (IsServer-check_server n server h.0) (All-check_servers rest h.1)

-- Every key and every MCP server of the configuration is well formed.
pub record IsValid (c : Config) : Type 0 where
  pub keys_fit : All (λ (e : Text × Key). IsKey c.vaults e.1) c.keys
  pub servers_fit : All (λ (e : Text × McpServerConfig). IsServer e.1) c.servers

validate-IsValid : (home : Option Text) (c : Config) → (validate home c).1 ≡ ok tt → IsValid c
unfolding validate apply_defaults
validate-IsValid home c e = elim (Result-cases (check_keys c.vaults c.keys)) [
  | inr (x, failed) ↦ absurd (cc (rw failed at e))
  | inl (u, passed) ↦ record {
    keys_fit = check_keys-All c.vaults c.keys passed;
    servers_fit = check_servers-All c.servers (rw passed at e);
  }
]

-- `Validate` accepts a configuration exactly when every key names a configured vault and a path, of at
-- most two segments in a keychain, and every MCP server has either a command or a url and a known
-- transport. The order in which the maps are walked does not matter.
pub validate_iff : (home : Option Text) (c : Config) → ((validate home c).1 ≡ ok tt) ↔ IsValid c
unfolding validate apply_defaults
validate_iff home c = (
  validate-IsValid home c,
  λ v. rw (All-check_keys c.vaults c.keys v.keys_fit) (All-check_servers c.servers v.servers_fit),
)

or_default_idem : (s d : Text) → or_default (or_default s d) d ≡ or_default s d
unfolding or_default
or_default_idem s d = elim (Bool-cases (is_empty s)) [
  | inr set ↦ rw (set, set)
  | inl unset ↦ rw unset (if_same (is_empty d))
]
  where
    if_same : (b : Bool) → (if b then d else d) ≡ d
    if_same true = refl
    if_same false = refl

-- Validating a configuration again changes nothing: the defaults that the first run has filled in
-- stay, and the verdict is the same.
pub validate_idem :
    (home : Option Text) (c : Config) → validate home (validate home c).0 ≡ validate home c
unfolding validate apply_defaults
validate_idem home c =
    rw
      (
        or_default_idem c.defaults.session_ttl (codes "3h"),
        or_default_idem c.logging.level (codes "info"),
        or_default_idem c.logging.format (codes "text"),
      )
      (rw (
        or_default_idem c.defaults.socket_path
          (expand_path home (codes "~/.config/locksmith/locksmith.sock"))))

pub load_decoded-IsValid :
    (home : Option Text) (c c' : Config) → load_decoded home c ≡ ok c' → IsValid c'
unfolding load_decoded
load_decoded-IsValid home c c' e = elim (Result-cases (validate home c).1) [
  | inr (x, failed) ↦ absurd (cc (rw failed at e))
  | inl (u, passed) ↦
      let v = validate-IsValid home c passed in
      let same : (validate home c).0 ≡ c' = cc (rw passed at e) in
      subst (λ x. IsValid x) same
        (unfold validate apply_defaults in
          record { keys_fit = v.keys_fit; servers_fit = v.servers_fit })
]
