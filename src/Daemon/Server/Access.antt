-- ===== src/Daemon/Server/Access.antt =====
-- Who gets a secret from GetSecret of internal/daemon/server.go, and what a refused request changes.
use locksmith.Common.{
  ℕ, ◌≡◌, refl, ap, false, ◌⊎◌, inl, inr, Option, some, Result, ok, err, Option-cases, Result-cases,
}
use locksmith.Common.Int.{ℤ}
use locksmith.Common.Text.{Text}
use locksmith.Common.Assoc.{Map, lookup}
use locksmith.Session
use locksmith.Session.{Store, is_expired, expired}
use locksmith.Session.Lifetime.{get-ok, get_live, get-cases}
use locksmith.Plugin.Manager
use locksmith.Plugin.Manager.{Manager}
use locksmith.Config.{Config}
use locksmith.Daemon.Server.{
  GetSecretRequest, GetSecretResponse, VaultError, VaultResponse, Error, invalid_session,
  resolve_key, cache_key, fetch, serve_key, serve, serve_session, get_secret,
}

module _ {P : Type 0} (ask : P → Text → Map Text → Result VaultError VaultResponse)
    (fresh : ℕ) where
  -- Nobody gets a secret without a session that is in the store and has not expired, and then the
  -- request is served from the store as it was.
  pub get_secret-live :
      (cfg : Config) (plugins : Option (Manager P)) (now : ℤ) (req : GetSecretRequest)
      (s s' : Store) (resp : GetSecretResponse)
      → get_secret ask fresh cfg plugins now req s ≡ (s', ok resp)
      → (sess : Session.Session) × (lookup req.session_id s.sessions ≡ some sess)
        × (is_expired now sess ≡ false)
        × (get_secret ask fresh cfg plugins now req s ≡ serve ask fresh cfg plugins req s)
  unfolding get_secret serve_session
  get_secret-live cfg plugins now req s s' resp e = go (Session.get now req.session_id s) refl
    where
      go :
          (g : Store × Result Session.Error Session.Session)
          → Session.get now req.session_id s ≡ g
          → (sess : Session.Session) × (lookup req.session_id s.sessions ≡ some sess)
            × (is_expired now sess ≡ false)
            × (get_secret ask fresh cfg plugins now req s ≡ serve ask fresh cfg plugins req s)
      go (s1, err x) q = absurd (cc (rw q at e))
      go (s1, ok sess) q =
          let (same, there, young) = get-ok now req.session_id s s1 sess q in
          (sess, there, young, rw q (ap (serve ask fresh cfg plugins req) same))

  pub get_secret_at :
      (cfg : Config) (plugins : Option (Manager P)) (now : ℤ) (req : GetSecretRequest) (s : Store)
      (sess : Session.Session)
      → lookup req.session_id s.sessions ≡ some sess
      → is_expired now sess ≡ false
      → get_secret ask fresh cfg plugins now req s ≡ serve ask fresh cfg plugins req s
  unfolding get_secret serve_session
  get_secret_at cfg plugins now req s sess there young =
      rw (get_live now req.session_id s sess there young)

  fetch_refused :
      (p : P) (path key : Text) (opts : Map Text) (id : Text) (s : Store) (x : Error)
      → (fetch ask fresh p path key opts id s).1 ≡ err x
      → (fetch ask fresh p path key opts id s).0 ≡ s
  unfolding fetch
  fetch_refused p path key opts id s x e = elim (Result-cases (ask p path opts)) [
    | inr (f, failed) ↦ rw (failed, fetch)
    | inl (a, given) ↦ absurd (cc (rw (given, fetch) at e))
  ]

  serve_key_refused :
      (plugins : Option (Manager P)) (t path : Text) (opts : Map Text) (id : Text) (s : Store)
      (x : Error)
      → (serve_key ask fresh plugins t path opts id s).1 ≡ err x
      → (serve_key ask fresh plugins t path opts id s).0 ≡ s
  unfolding serve_key
  serve_key_refused plugins t path opts id s x e =
      elim (Option-cases (Session.get_cached_secret id (cache_key t path) s)) [
        | inr (c, hit) ↦ rw (hit, serve_key)
        | inl miss ↦ elim (Option-cases plugins) [
          | inl nothing ↦ rw (miss, serve_key) (rw (nothing, serve_key))
          | inr (m, some_m) ↦ elim (Result-cases (Manager.get t m)) [
            | inr (f, failed) ↦
                rw (miss, serve_key) (rw (some_m, serve_key) (rw (failed, serve_key)))
            | inl (p, got) ↦
                rw (miss, serve_key)
                  (rw (some_m, serve_key)
                    (rw (got, serve_key)
                      (fetch_refused p path (cache_key t path) opts id s x (
                        rw (got, serve_key) at
                          (rw (some_m, serve_key) at (rw (miss, serve_key) at e))))))
          ]
        ]
      ]

  serve_refused :
      (cfg : Config) (plugins : Option (Manager P)) (req : GetSecretRequest) (s : Store) (x : Error)
      → (serve ask fresh cfg plugins req s).1 ≡ err x
      → (serve ask fresh cfg plugins req s).0 ≡ s
  unfolding serve
  serve_refused cfg plugins req s x e = elim (Result-cases (resolve_key cfg req)) [
    | inr (f, failed) ↦ rw (failed, serve)
    | inl ((t, path, opts), resolved) ↦
        rw (resolved, serve)
          (serve_key_refused plugins t path opts req.session_id s x (rw (resolved, serve) at e))
  ]

  -- A request that is refused changes nothing, except that an expired session is taken out.
  pub get_secret_refused :
      (cfg : Config) (plugins : Option (Manager P)) (now : ℤ) (req : GetSecretRequest) (s : Store)
      (x : Error)
      → (get_secret ask fresh cfg plugins now req s).1 ≡ err x
      → let s' = (get_secret ask fresh cfg plugins now req s).0 in
        (s' ≡ s)
        ⊎ ((x ≡ invalid_session (expired req.session_id))
            × (s' ≡ Session.get_expire req.session_id s))
  unfolding get_secret serve_session
  get_secret_refused cfg plugins now req s x e = elim (get-cases now req.session_id s) [
    | inl g ↦ inl (rw g)
    | inr r ↦ elim r [
      | inl g ↦
          let q : err (invalid_session (expired req.session_id)) ≡ err x = rw g at e in
          inr (cc, rw g)
      | inr (sess, g) ↦ inl (rw g (serve_refused cfg plugins req s x (rw g at e)))
    ]
  ]
