-- ===== src/Daemon/Server/Traffic.antt =====
-- Handlers of internal/daemon/server.go and the cleanup loop, one after the other: requests for secrets,
-- starts and ends of sessions and cleanups.
use locksmith.Common.{
  ℕ, ◌≡◌, ◌≢◌, ◌∙◌, refl, ap, sym, subst, true, false, List, [], ◌∷◌, inl, inr, Option, none, some,
  Result, ok, err, wrap_err, if◌then◌else◌, arith, Bool-cases, Option-cases, Result-cases,
}
use locksmith.Common.Int.{ℤ, ltb_ℤ}
use locksmith.Common.Text.{Text, text_eq, text_eq_iff, text_eq_refl}
use locksmith.Common.Assoc.{Map, lookup, insert, delete, lookup-insert, lookup-delete}
use locksmith.Session
use locksmith.Session.{
  Store, Heap, is_expired, generate_id, delete_found, get_by_mask, cleanup_loop, is_key_allowed,
  get_expire,
}
use locksmith.Session.Lifetime.{get_live, get-cases}
use locksmith.Session.Secrets.{get_cached_secret-cache_secret, cache_secret_there}
use locksmith.Plugin.Manager
use locksmith.Plugin.Manager.{Manager}
use locksmith.Config.{Config}
use locksmith.Daemon.Server.{
  SessionStartRequest, GetSecretRequest, VaultError, VaultResponse, resolve_key, cache_key, receive,
  parse_ttl, deleting, fetch, serve_key, serve, serve_session, get_secret, session_start,
  session_end,
}
pub mod Keeping

-- One call: a handler with what it finds, or the cleanup.
pub data Traffic (P : Type 0) : Type 0 where
  asks :
      (P → Text → Map Text → Result VaultError VaultResponse)
      → ℕ
      → Config
      → Option (Manager P)
      → ℤ
      → GetSecretRequest
      → Traffic P
  starts : (Text → Option ℤ) → Config → Option Text → ℤ → SessionStartRequest → Traffic P
  ends : Text → Traffic P
  cleans : ℤ → Traffic P

unfoldable pub handle : {P : Type 0} → Traffic P → Store → Store
handle (asks ask fresh cfg plugins now req) s = (get_secret ask fresh cfg plugins now req s).0
handle (starts parse_duration cfg random now req) s =
    (session_start parse_duration cfg random now req s).0
handle (ends prefix) s = (session_end prefix s).0
handle (cleans now) s = (Session.cleanup now s).0

unfoldable pub handle_all : {P : Type 0} → List (Traffic P) → Store → Store
handle_all [] s = s
handle_all (c ∷ cs) s = handle_all cs (handle c s)

-- The call is not one that ends this session or starts one under its id.
abbrev pub Spares : {P : Type 0} → Text → Session.Session → Store → Traffic P → Type 0
Spares id sess s (asks ask fresh cfg plugins now req) = is_expired now sess ≡ false
Spares id sess s (starts parse_duration cfg random now req) = generate_id random ≢ ok id
Spares id sess s (ends prefix) = (session_end prefix s).1 ≢ ok id
Spares id sess s (cleans now) = is_expired now sess ≡ false

abbrev pub AllSpare : {P : Type 0} → Text → Session.Session → Store → List (Traffic P) → Type 0
AllSpare id sess s [] = Unit
AllSpare id sess s (c ∷ cs) = Spares id sess s c × AllSpare id sess (handle c s) cs
