-- ===== src/Daemon/Server.antt =====
-- internal/daemon/server.go: the handlers of LocksmithService.
--
-- A vault plugin is a library's process: `ask` is what the provider's GetSecret answers at the time of
-- the request, and `fresh` is the address at which the received bytes are put. Times of a response are
-- not formatted. time.ParseDuration computes fractions in floating point, so it is an argument.
pub mod Traffic
pub mod Caching
pub mod Access
use locksmith.Common.{
  ℕ, ◌≡◌, Bool, true, false, not, ◌&&◌, ◌||◌, List, [], ◌∷◌, ◌++◌, map, Option, none, some, Result,
  ok, err, ◌==◌, if◌then◌else◌, wrap_err, ◌>>=◌,
}
use locksmith.Common.Int.{ℤ}
use locksmith.Common.Text.{Text, codes, is_empty}
use locksmith.Common.Assoc.{Map, lookup, insert}
use locksmith.Session
use locksmith.Session.{Store}
use locksmith.Masking.{hide_session_id}
use locksmith.Plugin.Manager
use locksmith.Plugin.Manager.{Manager}
use locksmith.Config.{Config, Vault, Key}

pub record SessionStartRequest : Type 0 where
  pub ttl : Text
  pub allowed_keys : List Text

pub record SessionStartResponse : Type 0 where
  pub session_id : Text
  pub expires_at : ℤ

pub record SessionInfo : Type 0 where
  pub session_id : Text
  pub created_at : ℤ
  pub expires_at : ℤ
  pub allowed_keys : List Text

pub record GetSecretRequest : Type 0 where
  pub session_id : Text
  pub key_alias : Text
  pub vault_name : Text
  pub path : Text

pub record GetSecretResponse : Type 0 where
  pub secret : ℕ
  pub content_type : Text

-- An error of a provider: one with a gRPC status code, or any other.
pub data VaultError : Type 0 where
  with_status : ℕ → Text → VaultError
  plain : Text → VaultError

pub record VaultResponse : Type 0 where
  pub bytes : Text
  pub content_type : Text

pub data Error : Type 0 where
  invalid_ttl : Text → Error
  creating : Session.Error → Error
  deleting : Session.Error → Error
  invalid_session : Session.Error → Error
  unknown_alias : Text → Error
  unknown_vault : Text → Text → Error
  no_target : Error
  no_manager : Error
  vault_plugin : Manager.Error → Error
  fetching : ℕ → Text → Error

-- codes.OK and codes.Internal
abbrev pub code_ok : ℕ
code_ok = 0

abbrev pub code_internal : ℕ
code_internal = 13

-- parseTTL
unfoldable pub parse_ttl : (Text → Option ℤ) → Text → Text → Result Error ℤ
parse_ttl parse_duration requested default_ttl =
    let ttl_str = if is_empty requested then default_ttl else requested in
    elim (parse_duration ttl_str) [ none ↦ err (invalid_ttl ttl_str) | some d ↦ ok d ]

-- SessionStart
unfoldable pub session_start :
    (Text → Option ℤ)
    → Config
    → Option Text
    → ℤ
    → SessionStartRequest
    → Store
    → Store × Result Error SessionStartResponse
session_start parse_duration cfg random now req s =
    elim (parse_ttl parse_duration req.ttl cfg.defaults.session_ttl) [
      | err e ↦ (s, err e)
      | ok ttl ↦
          let (s', r) = Session.create random now ttl req.allowed_keys s in
          (
            s',
            wrap_err creating r >>= λ sess.
                ok (record { session_id = sess.id; expires_at = sess.expires_at }),
          )
    ]

-- SessionEnd
unfoldable pub session_end : Text → Store → Store × Result Error Text
session_end prefix s = let (s', r) = Session.delete_session prefix s in (s', wrap_err deleting r)

-- SessionList
unfoldable pub session_list : Store → List SessionInfo
session_list s =
    map
      (λ (sess : Session.Session). record {
        session_id = hide_session_id sess.id;
        created_at = sess.created_at;
        expires_at = sess.expires_at;
        allowed_keys = sess.allowed_keys;
      })
      (Session.list_sessions s)

-- if v != "" { opts[name] = v }
unfoldable pub add_opt : Text → Text → Map Text → Map Text
add_opt name v opts = if is_empty v then opts else insert name v opts

unfoldable pub vault_opts : Vault → Map Text
vault_opts def = add_opt (codes "service") def.service (add_opt (codes "store") def.store [])

-- resolveKey: vault type, path and options.
unfoldable pub resolve_key : Config → GetSecretRequest → Result Error (Text × Text × Map Text)
resolve_key cfg req =
    if not (is_empty req.key_alias)
    then elim (lookup req.key_alias cfg.keys) [
      | none ↦ err (unknown_alias req.key_alias)
      | some key ↦ elim (lookup key.vault cfg.vaults) [
        | none ↦ err (unknown_vault req.key_alias key.vault)
        | some def ↦ ok (def.vault_type, key.path, vault_opts def)
      ]
    ]
    else if is_empty req.vault_name || is_empty req.path
    then err no_target
    else elim (lookup req.vault_name cfg.vaults) [
      | some def ↦ ok (def.vault_type, req.path, vault_opts def)
      | none ↦ ok (req.vault_name, req.path, [])
    ]

-- cacheKey
unfoldable pub cache_key : Text → Text → Text
cache_key vault_type path = vault_type ++ (codes ":" ++ path)

-- The received bytes are a new slice.
unfoldable pub receive : ℕ → Text → Store → Store
receive fresh bytes s = record s { heap = λ x. if x == fresh then bytes else s.heap x }

-- The status that a failed fetch is returned with.
unfoldable pub fetch_error : VaultError → Error
fetch_error (with_status code msg) =
    if code == code_ok then fetching code_internal msg else fetching code msg
fetch_error (plain msg) = fetching code_internal msg

module _ {P : Type 0} (ask : P → Text → Map Text → Result VaultError VaultResponse)
    (fresh : ℕ) where
  -- Fetching from the vault and caching, behind the provider.
  unfoldable pub fetch :
      P → Text → Text → Map Text → Text → Store → Store × Result Error GetSecretResponse
  fetch provider path key opts id s = elim (ask provider path opts) [
    | err e ↦ (s, err (fetch_error e))
    | ok resp ↦ (
      Session.cache_secret id key fresh (receive fresh resp.bytes s),
      ok (record { secret = fresh; content_type = resp.content_type }),
    )
  ]

  -- The part of GetSecret behind the resolved key.
  unfoldable pub serve_key :
      Option (Manager P)
      → Text
      → Text
      → Map Text
      → Text
      → Store
      → Store × Result Error GetSecretResponse
  serve_key plugins vault_type path opts id s =
      let key = cache_key vault_type path in
      elim (Session.get_cached_secret id key s) [
        | some cached ↦ (s, ok (record { secret = cached; content_type = codes "text/plain" }))
        | none ↦ elim plugins [
          | none ↦ (s, err no_manager)
          | some m ↦ elim (Manager.get vault_type m) [
            | err e ↦ (s, err (vault_plugin e))
            | ok provider ↦ fetch provider path key opts id s
          ]
        ]
      ]

  -- The part of GetSecret for a live session.
  unfoldable pub serve :
      Config
      → Option (Manager P)
      → GetSecretRequest
      → Store
      → Store × Result Error GetSecretResponse
  serve cfg plugins req s = elim (resolve_key cfg req) [
    | err e ↦ (s, err e)
    | ok (vault_type, path, opts) ↦ serve_key plugins vault_type path opts req.session_id s
  ]

  -- GetSecret, behind the session check.
  unfoldable pub serve_session :
      Config
      → Option (Manager P)
      → GetSecretRequest
      → Store × Result Session.Error Session.Session
      → Store × Result Error GetSecretResponse
  serve_session cfg plugins req (s, err e) = (s, err (invalid_session e))
  serve_session cfg plugins req (s, ok sess) = serve cfg plugins req s

  -- GetSecret
  unfoldable pub get_secret :
      Config
      → Option (Manager P)
      → ℤ
      → GetSecretRequest
      → Store
      → Store × Result Error GetSecretResponse
  get_secret cfg plugins now req s =
      serve_session cfg plugins req (Session.get now req.session_id s)
