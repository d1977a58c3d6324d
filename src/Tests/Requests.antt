-- ===== src/Tests/Requests.antt =====
-- GetSecret of internal/daemon/server.go at concrete inputs.
use locksmith.Common.{◌≡◌, refl, ◌⊎◌, false, List, [], ◌∷◌, Option, none, some, Result, ok, ◌==◌, ℕ}
use locksmith.Common.Int.{pos}
use locksmith.Common.Text.{Text, codes, text_eq, is_empty, has_prefix, to_lower}
use locksmith.Common.Assoc.{Map, lookup, insert}
use locksmith.Session
use locksmith.Session.{
  Store, get_read, get, get_expire, is_expired, cache_secret, get_cached_secret, is_key_allowed,
  in_list, expired, delete_session, delete_found, get_by_mask, mask_loop, not_found, remove_session,
}
use locksmith.Plugin.Manager
use locksmith.Plugin.Manager.{Manager, Running}
use locksmith.Daemon.Server.{
  session_end, receive, GetSecretRequest, GetSecretResponse, VaultError, VaultResponse,
  invalid_session, resolve_key, vault_opts, add_opt, cache_key, fetch, serve_key, serve,
  serve_session, get_secret,
}
use locksmith.Daemon.Server.Traffic.{Traffic, asks, ends, cleans, AllSpare, handle, handle_all}
use locksmith.Daemon.Server.Access.{get_secret-live, get_secret_refused}
use locksmith.Daemon.Server.Caching.{get_secret_again, get_secret_ignores_allowlist}
use locksmith.Tests.Versions.{one_vault}
use locksmith.Tests.Sessions.{two, id_a, id_b, session_a, session_b, ids_differ}

-- A vault that answers every request with one secret.
abbrev ask : ℕ → Text → Map Text → Result VaultError VaultResponse
ask p path opts = ok (record { bytes = codes "s3cret"; content_type = codes "text/plain" })

abbrev gopass : Running ℕ
gopass = record { client = 0; provider = 1; info = none; warnings = [] }

abbrev manager : Option (Manager ℕ)
manager = some (record { plugins = (codes "gopass", gopass) ∷ []; alive = λ x. x == 0; next = 1 })

abbrev request : GetSecretRequest
request = record { session_id = id_a; key_alias = codes "github"; vault_name = []; path = [] }

-- The same path, named without an alias.
abbrev same_path : GetSecretRequest
same_path = record {
  session_id = id_a;
  key_alias = [];
  vault_name = codes "gopass";
  path = codes "dev/github";
}

abbrev after : Store
after = (get_secret ask 9 one_vault manager (pos 5) request two).0

abbrev answer : GetSecretResponse
answer = record { secret = 9; content_type = codes "text/plain" }

answered : get_secret ask 9 one_vault manager (pos 5) request two ≡ (after, ok answer)
unfolding get_secret serve_session get get_read is_expired lookup text_eq serve resolve_key is_empty
    vault_opts add_opt serve_key cache_key get_cached_secret is_key_allowed Manager.get fetch
answered = refl

get_secret-live_example :
    (sess : Session.Session) × (lookup id_a two.sessions ≡ some sess)
    × (is_expired (pos 5) sess ≡ false)
    × (get_secret ask 9 one_vault manager (pos 5) request two
        ≡ serve ask 9 one_vault manager request two)
get_secret-live_example =
    get_secret-live ask 9 one_vault manager (pos 5) request two after answer answered

get_secret_refused_example :
    ((get_secret ask 9 one_vault manager (pos 15) request two).0 ≡ two)
    ⊎ ((invalid_session (expired id_a) ≡ invalid_session (expired id_a))
        × ((get_secret ask 9 one_vault manager (pos 15) request two).0 ≡ get_expire id_a two))
unfolding get_secret serve_session get get_read is_expired lookup text_eq
get_secret_refused_example =
    get_secret_refused ask 9 one_vault manager (pos 15) request two (invalid_session (expired id_a))
      refl

-- The session is used for another secret, the other session ends, and the expired are removed.
abbrev between : List (Traffic ℕ)
between =
    asks ask 10 one_vault manager (pos 6) (record same_path { path = codes "dev/npm" })
    ∷ ends id_b
    ∷ cleans (pos 7)
    ∷ []

abbrev then_ : Store
then_ = handle_all between after

ended :
    (session_end id_b
      (get_secret ask 10 one_vault manager
        (pos 6)
        (record same_path { path = codes "dev/npm" })
        after).0).1
    ≡ ok id_b
unfolding get_secret serve_session get get_read is_expired lookup text_eq serve resolve_key is_empty
    vault_opts add_opt serve_key cache_key get_cached_secret is_key_allowed Manager.get fetch
    session_end delete_session delete_found get_by_mask mask_loop has_prefix to_lower cache_secret
    receive insert
ended = refl

same_id : {E : Type 0} {r : Result E Text} (a b : Text) → r ≡ ok b → r ≡ ok a → a ≡ b
same_id a b p q = cc (p, q)

spared : AllSpare id_a session_a after between
unfolding is_expired handle
spared = (refl, (λ h. ids_differ (same_id id_a id_b ended h), (refl, tt)))

get_secret_again_example :
    get_secret ask 12 one_vault none (pos 8) same_path then_
    ≡ (then_, ok (record { secret = 9; content_type = codes "text/plain" }))
unfolding lookup text_eq is_expired resolve_key is_empty vault_opts add_opt
get_secret_again_example =
    get_secret_again ask ask 9 12 one_vault one_vault manager none (pos 5) (pos 8) request same_path
      two after session_a (codes "gopass") (codes "dev/github") [] [] answer between refl refl refl
      answered spared refl refl refl

-- A session that may use no key but "other".
abbrev restricted : Session.Session
restricted = record session_b { allowed_keys = codes "other" ∷ [] }

abbrev with_restricted : Store
with_restricted = record two { sessions = (id_b, restricted) ∷ [] }

get_secret_ignores_allowlist_example :
    (get_secret ask 9 one_vault manager (pos 5) request two).1
    ≡ (get_secret ask 9 one_vault manager
        (pos 5)
        (record request { session_id = id_b })
        with_restricted).1
unfolding lookup text_eq is_expired resolve_key is_empty vault_opts add_opt get_cached_secret
    is_key_allowed in_list cache_key
get_secret_ignores_allowlist_example =
    get_secret_ignores_allowlist ask 9 one_vault manager (pos 5) request
      (record request { session_id = id_b }) two with_restricted session_a restricted
      (codes "gopass") (codes "dev/github") [] refl refl refl refl refl refl refl refl
