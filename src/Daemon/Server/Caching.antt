-- ===== src/Daemon/Server/Caching.antt =====
-- What the session cache does for GetSecret of internal/daemon/server.go.
use locksmith.Common.{
  ℕ, ◌≡◌, ◌∙◌, refl, ap, sym, subst, false, List, [], inl, inr, Option, none, some, Result, ok,
  Option-cases, Result-cases,
}
use locksmith.Common.Int.{ℤ, ltb_ℤ}
use locksmith.Common.Text.{Text, codes}
use locksmith.Common.Assoc.{Map, lookup, insert}
use locksmith.Session
use locksmith.Session.{Store, is_expired}
use locksmith.Session.Secrets.{cache_secret_there, get_cached_self}
use locksmith.Plugin.Manager
use locksmith.Plugin.Manager.{Manager}
use locksmith.Config.{Config}
use locksmith.Daemon.Server.{
  GetSecretRequest, GetSecretResponse, VaultError, VaultResponse, Error, resolve_key, cache_key,
  receive, fetch, serve_key, serve, get_secret,
}
use locksmith.Daemon.Server.Traffic.{Traffic, AllSpare, handle_all}
use locksmith.Daemon.Server.Traffic.Keeping.{Cached, handle_all-Cached}
use locksmith.Daemon.Server.Access.{get_secret-live, get_secret_at}

module _ {P : Type 0} (ask : P → Text → Map Text → Result VaultError VaultResponse)
    (fresh : ℕ) where
  fetch-Cached :
      (p : P) (path key : Text) (opts : Map Text) (id : Text) (s s' : Store)
      (sess : Session.Session) (resp : GetSecretResponse)
      → lookup id s.sessions ≡ some sess
      → sess.allowed_keys ≡ []
      → fetch ask fresh p path key opts id s ≡ (s', ok resp)
      → Cached id key sess resp.secret s'
  unfolding fetch receive
  fetch-Cached p path key opts id s s' sess resp there free e =
      elim (Result-cases (ask p path opts)) [
        | inr (x, failed) ↦ absurd (cc (rw (failed, fetch) at e))
        | inl (answer, given) ↦
            let s1 : Store = receive fresh answer.bytes s in
            let r : GetSecretResponse = record {
              secret = fresh;
              content_type = answer.content_type;
            } in
            let q : ◌≡◌ {A = Store × Result Error GetSecretResponse}
                (Session.cache_secret id key fresh s1, ok r) (s', ok resp) =
              rw (given, fetch) at e in
            let same : r ≡ resp = cc in
            subst (λ (z : Store). Cached id key sess resp.secret z)
              (ap (λ (x : Store × Result Error GetSecretResponse). x.0) q)
              (record {
                after = record sess { secrets = insert key fresh sess.secrets };
                there = cache_secret_there id key fresh s1 sess there;
                until = refl;
                free = refl;
                cached =
                    get_cached_self id key fresh s1 sess there free
                    ∙ ap (λ (x : GetSecretResponse). some x.secret) same;
              })
      ]

  serve_key-Cached :
      (plugins : Option (Manager P)) (t path : Text) (opts : Map Text) (id : Text) (s s' : Store)
      (sess : Session.Session) (resp : GetSecretResponse)
      → lookup id s.sessions ≡ some sess
      → sess.allowed_keys ≡ []
      → serve_key ask fresh plugins t path opts id s ≡ (s', ok resp)
      → Cached id (cache_key t path) sess resp.secret s'
  unfolding serve_key
  serve_key-Cached plugins t path opts id s s' sess resp there free e =
      let key = cache_key t path in
      elim (Option-cases (Session.get_cached_secret id key s)) [
        | inr (c, hit) ↦
            let r : GetSecretResponse = record { secret = c; content_type = codes "text/plain" } in
            let q : ◌≡◌ {A = Store × Result Error GetSecretResponse} (s, ok r) (s', ok resp) =
              rw (hit, serve_key) at e in
            let same : r ≡ resp = cc in
            subst (λ (z : Store). Cached id key sess resp.secret z)
              (ap (λ (x : Store × Result Error GetSecretResponse). x.0) q)
              (record {
                after = sess;
                there = there;
                until = refl;
                free = refl;
                cached = hit ∙ ap (λ (x : GetSecretResponse). some x.secret) same;
              })
        | inl miss ↦ elim (Option-cases plugins) [
          | inl nothing ↦ absurd (cc (rw (nothing, serve_key) at (rw (miss, serve_key) at e)))
          | inr (m, some_m) ↦ elim (Result-cases (Manager.get t m)) [
            | inr (x, failed) ↦ absurd (
                cc (
                  rw (failed, serve_key) at
                    (rw (some_m, serve_key) at (rw (miss, serve_key) at e))))
            | inl (p, got) ↦
                fetch-Cached p path key opts id s s' sess resp there free
                  (rw (got, serve_key) at (rw (some_m, serve_key) at (rw (miss, serve_key) at e)))
          ]
        ]
      ]

  -- A request under a live session without an allowlist leaves its secret in the session's cache.
  get_secret-Cached :
      (cfg : Config) (plugins : Option (Manager P)) (now : ℤ) (req : GetSecretRequest)
      (s s' : Store) (sess : Session.Session) (t path : Text) (opts : Map Text)
      (resp : GetSecretResponse)
      → lookup req.session_id s.sessions ≡ some sess
      → sess.allowed_keys ≡ []
      → resolve_key cfg req ≡ ok (t, path, opts)
      → get_secret ask fresh cfg plugins now req s ≡ (s', ok resp)
      → Cached req.session_id (cache_key t path) sess resp.secret s'
  unfolding serve
  get_secret-Cached cfg plugins now req s s' sess t path opts resp there free resolved e =
      let (found, at_id, young, served) =
        get_secret-live ask fresh cfg plugins now req s s' resp e in
      serve_key-Cached plugins t path opts req.session_id s s' sess resp there free
        (rw (resolved, serve) at (sym served ∙ e))

module _ {P : Type 0} (ask : P → Text → Map Text → Result VaultError VaultResponse)
    (fresh : ℕ) where
  serve_hit :
      (cfg : Config) (plugins : Option (Manager P)) (req : GetSecretRequest) (s : Store)
      (t path : Text) (opts : Map Text) (c : ℕ)
      → resolve_key cfg req ≡ ok (t, path, opts)
      → Session.get_cached_secret req.session_id (cache_key t path) s ≡ some c
      → serve ask fresh cfg plugins req s
        ≡ (s, ok (record { secret = c; content_type = codes "text/plain" }))
  unfolding serve serve_key
  serve_hit cfg plugins req s t path opts c resolved hit =
      rw (resolved, serve) (rw (hit, serve_key))

-- The first request under a live session without an allowlist decides: after it, and any further calls in
-- turn, requests for secrets under any session, starts and ends of sessions and cleanups, a request under
-- the session that resolves to the same vault type and path is answered with the same slice and leaves the
-- store alone, whatever the vault would answer then, whether or not the plugin still runs, and whatever
-- the options of the vault that the later request names. The session has not expired at the times of
-- the requests and cleanups since the first, has not been ended and has not been started again.
pub get_secret_again :
    {P : Type 0} (ask ask' : P → Text → Map Text → Result VaultError VaultResponse)
    (fresh fresh' : ℕ) (cfg cfg' : Config) (plugins plugins' : Option (Manager P)) (now later : ℤ)
    (req req' : GetSecretRequest) (s s' : Store) (sess : Session.Session) (t path : Text)
    (opts opts' : Map Text) (resp : GetSecretResponse) (cs : List (Traffic P))
    → lookup req.session_id s.sessions ≡ some sess
    → sess.allowed_keys ≡ []
    → resolve_key cfg req ≡ ok (t, path, opts)
    → get_secret ask fresh cfg plugins now req s ≡ (s', ok resp)
    → AllSpare req.session_id sess s' cs
    → req'.session_id ≡ req.session_id
    → resolve_key cfg' req' ≡ ok (t, path, opts')
    → is_expired later sess ≡ false
    → get_secret ask' fresh' cfg' plugins' later req' (handle_all cs s')
      ≡ (handle_all cs s', ok (record { secret = resp.secret; content_type = codes "text/plain" }))
unfolding is_expired
get_secret_again ask ask' fresh fresh' cfg cfg' plugins plugins' now later req req' s s' sess t path
      opts opts' resp cs there free resolved e spared same resolved' young =
    let key = cache_key t path in
    let s1 = handle_all cs s' in
    let c = handle_all-Cached req.session_id key sess resp.secret cs s' spared (
      get_secret-Cached ask fresh cfg plugins now req s s' sess t path opts resp there free resolved
        e) in
    let id = req'.session_id in
    let there' : lookup id s1.sessions ≡ some c.after =
      subst (λ i. lookup i s1.sessions ≡ some c.after) (sym same) c.there in
    let hit : Session.get_cached_secret id key s1 ≡ some resp.secret =
      subst (λ i. Session.get_cached_secret i key s1 ≡ some resp.secret) (sym same) c.cached in
    let young' : is_expired later c.after ≡ false =
      subst (λ (x : ℤ). ltb_ℤ x later ≡ false) (sym c.until) young in
    get_secret_at ask' fresh' cfg' plugins' later req' s1 c.after there' young'
    ∙ serve_hit ask' fresh' cfg' plugins' req' s1 t path opts' resp.secret resolved' hit

module _ {P : Type 0} (ask : P → Text → Map Text → Result VaultError VaultResponse)
    (fresh : ℕ) where
  fetch_result :
      (p : P) (path key : Text) (opts : Map Text) (i j : Text) (s1 s2 : Store)
      → (fetch ask fresh p path key opts i s1).1 ≡ (fetch ask fresh p path key opts j s2).1
  unfolding fetch
  fetch_result p path key opts i j s1 s2 = elim (Result-cases (ask p path opts)) [
    | inr (x, failed) ↦ rw (failed, fetch)
    | inl (a, given) ↦ rw (given, fetch)
  ]

  serve_key_result :
      (plugins : Option (Manager P)) (t path : Text) (opts : Map Text) (i j : Text) (s1 s2 : Store)
      → Session.get_cached_secret i (cache_key t path) s1 ≡ none
      → Session.get_cached_secret j (cache_key t path) s2 ≡ none
      → (serve_key ask fresh plugins t path opts i s1).1
        ≡ (serve_key ask fresh plugins t path opts j s2).1
  unfolding serve_key
  serve_key_result plugins t path opts i j s1 s2 m1 m2 =
      rw (m1, serve_key)
        (rw (m2, serve_key)
          (elim (Option-cases plugins) [
            | inl nothing ↦ rw (nothing, serve_key)
            | inr (m, some_m) ↦
                rw (some_m, serve_key)
                  (elim (Result-cases (Manager.get t m)) [
                    | inr (x, failed) ↦ rw (failed, serve_key)
                    | inl (p, got) ↦
                        rw (got, serve_key) (fetch_result p path (cache_key t path) opts i j s1 s2)
                  ])
          ]))

  serve_result :
      (cfg : Config) (plugins : Option (Manager P)) (req1 req2 : GetSecretRequest) (s1 s2 : Store)
      (t path : Text) (opts : Map Text)
      → resolve_key cfg req1 ≡ ok (t, path, opts)
      → resolve_key cfg req2 ≡ ok (t, path, opts)
      → Session.get_cached_secret req1.session_id (cache_key t path) s1 ≡ none
      → Session.get_cached_secret req2.session_id (cache_key t path) s2 ≡ none
      → (serve ask fresh cfg plugins req1 s1).1 ≡ (serve ask fresh cfg plugins req2 s2).1
  unfolding serve
  serve_result cfg plugins req1 req2 s1 s2 t path opts r1 r2 m1 m2 =
      rw (r1, serve)
        (rw (r2, serve)
          (serve_key_result plugins t path opts req1.session_id req2.session_id s1 s2 m1 m2))

  -- What a live session may fetch does not depend on its allowlist: two live sessions that have no
  -- usable cache entry for a key get the same answer to requests that resolve to it, a secret or an
  -- error, whatever keys either of them is restricted to.
  pub get_secret_ignores_allowlist :
      (cfg : Config) (plugins : Option (Manager P)) (now : ℤ) (req1 req2 : GetSecretRequest)
      (s1 s2 : Store) (a b : Session.Session) (t path : Text) (opts : Map Text)
      → lookup req1.session_id s1.sessions ≡ some a
      → lookup req2.session_id s2.sessions ≡ some b
      → is_expired now a ≡ false
      → is_expired now b ≡ false
      → resolve_key cfg req1 ≡ ok (t, path, opts)
      → resolve_key cfg req2 ≡ ok (t, path, opts)
      → Session.get_cached_secret req1.session_id (cache_key t path) s1 ≡ none
      → Session.get_cached_secret req2.session_id (cache_key t path) s2 ≡ none
      → (get_secret ask fresh cfg plugins now req1 s1).1
        ≡ (get_secret ask fresh cfg plugins now req2 s2).1
  get_secret_ignores_allowlist cfg plugins now req1 req2 s1 s2 a b t path opts la lb ya yb r1 r2 m1
        m2 =
      rw (get_secret_at ask fresh cfg plugins now req1 s1 a la ya) (
        rw (get_secret_at ask fresh cfg plugins now req2 s2 b lb yb)
          (serve_result cfg plugins req1 req2 s1 s2 t path opts r1 r2 m1 m2))
