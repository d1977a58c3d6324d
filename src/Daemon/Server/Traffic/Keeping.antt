-- ===== src/Daemon/Server/Traffic/Keeping.antt =====
-- What GetSecret, SessionStart and SessionEnd of internal/daemon/server.go and the cleanup loop leave in
-- the cache of a session.
use locksmith.Common.{
  ℕ, ◌≡◌, ◌≢◌, ◌∙◌, refl, ap, sym, subst, false, List, [], ◌∷◌, inl, inr, Option, none, some,
  Result, ok, wrap_err, if◌then◌else◌, Bool-cases, Option-cases, Result-cases,
}
use locksmith.Common.Int.{ℤ, ltb_ℤ}
use locksmith.Common.Text.{Text, text_eq, text_eq_iff, text_eq_refl}
use locksmith.Common.Assoc.{Map, lookup, insert, lookup-insert, lookup-delete}
use locksmith.Session
use locksmith.Session.{
  Store, Heap, is_expired, generate_id, delete_found, get_by_mask, cleanup_loop, is_key_allowed,
  get_expire,
}
use locksmith.Session.Lifetime.{get_live, get-cases}
use locksmith.Session.Secrets.{get_cached_secret-cache_secret, cache_secret_there}
use locksmith.Plugin.Manager
use locksmith.Plugin.Manager.{Manager}
use locksmith.Config.{Config}
use locksmith.Daemon.Server.{
  SessionStartRequest, GetSecretRequest, VaultError, VaultResponse, resolve_key, cache_key, receive,
  parse_ttl, deleting, fetch, serve_key, serve, serve_session, get_secret, session_start,
  session_end,
}
use locksmith.Daemon.Server.Traffic.{
  Traffic, asks, starts, ends, cleans, Spares, AllSpare, handle, handle_all,
}

-- The session is there with the limits of `sess`, and the secret is in its cache under the key.
pub record Cached (id key : Text) (sess : Session.Session) (secret : ℕ) (s : Store) : Type 0 where
  pub after : Session.Session
  pub there : lookup id s.sessions ≡ some after
  pub until : after.expires_at ≡ sess.expires_at
  pub free : after.allowed_keys ≡ sess.allowed_keys
  pub cached : Session.get_cached_secret id key s ≡ some secret

module _ (id key : Text) (sess : Session.Session) (secret : ℕ) where
  abbrev IsCached : Store → Type 0
  IsCached s = Cached id key sess secret s

  same-IsCached :
      (s s' : Store) → lookup id s'.sessions ≡ lookup id s.sessions → IsCached s → IsCached s'
  unfolding Session.get_cached_secret
  same-IsCached s s' same c = record {
    after = c.after;
    there = same ∙ c.there;
    until = c.until;
    free = c.free;
    cached =
        ap
          (λ o. elim o as (λ _. Option ℕ) [
            | none ↦ none
            | some x ↦ if is_key_allowed x key then lookup key x.secrets else none
          ])
          same
        ∙ c.cached;
  }

  young :
      (now : ℤ) (s : Store) (c : IsCached s)
      → is_expired now sess ≡ false
      → is_expired now c.after ≡ false
  unfolding is_expired
  young now s c h = subst (λ (x : ℤ). ltb_ℤ x now ≡ false) (sym c.until) h

  remove-lookup :
      (j : Text) (x : Session.Session) (s : Store)
      → text_eq j id ≡ false
      → lookup id (Session.remove_session j x s).sessions ≡ lookup id s.sessions
  unfolding Session.remove_session
  remove-lookup j x s other = lookup-delete j id s.sessions ∙ rw other refl

  expire-lookup :
      (j : Text) (s : Store)
      → text_eq j id ≡ false
      → lookup id (get_expire j s).sessions ≡ lookup id s.sessions
  unfolding get_expire
  expire-lookup j s other = elim (Option-cases (lookup j s.sessions)) [
    | inl gone ↦ rw (gone, get_expire) refl
    | inr (x, there) ↦ rw (there, get_expire) (remove-lookup j x s other)
  ]

  cache-IsCached :
      (j k : Text) (fresh : ℕ) (s : Store)
      → Session.get_cached_secret j k s ≡ none
      → IsCached s
      → IsCached (Session.cache_secret j k fresh s)
  unfolding Session.cache_secret
  cache-IsCached j k fresh s miss c = elim (Option-cases (lookup j s.sessions)) [
    | inl gone ↦ rw (gone, Session.cache_secret) c
    | inr (x, there) ↦ elim (Bool-cases (text_eq j id)) [
      | inr other ↦
          rw (there, Session.cache_secret)
            (same-IsCached s _ (lookup-insert j id _ s.sessions ∙ rw other refl) c)
      | inl same ↦
          let e : j ≡ id = (text_eq_iff j id).0 same in
          let k_other : text_eq k key ≡ false = elim (Bool-cases (text_eq k key)) [
            | inr other ↦ other
            | inl hit ↦ absurd (cc (miss, c.cached, e, (text_eq_iff k key).0 hit))
          ] in
          subst (λ i. IsCached (Session.cache_secret i k fresh s)) (sym e)
            (record {
              after = record c.after { secrets = insert k fresh c.after.secrets };
              there = cache_secret_there id k fresh s c.after c.there;
              until = c.until;
              free = c.free;
              cached =
                  get_cached_secret-cache_secret id k id key fresh s c.after c.there
                  ∙ rw (k_other, text_eq_refl id) c.cached;
            })
    ]
  ]

  module _ {P : Type 0} (ask : P → Text → Map Text → Result VaultError VaultResponse)
      (fresh : ℕ) where
    fetch-IsCached :
        (p : P) (path k : Text) (opts : Map Text) (j : Text) (s : Store)
        → Session.get_cached_secret j k s ≡ none
        → IsCached s
        → IsCached (fetch ask fresh p path k opts j s).0
    unfolding fetch receive
    fetch-IsCached p path k opts j s miss c = elim (Result-cases (ask p path opts)) [
      | inr (e, failed) ↦ rw (failed, fetch) c
      | inl (a, given) ↦
          rw (given, fetch)
            (cache-IsCached j k fresh (receive fresh a.bytes s)
              (unfold Session.get_cached_secret in miss)
              (same-IsCached s (receive fresh a.bytes s) refl c))
    ]

    serve_key-IsCached :
        (plugins : Option (Manager P)) (t path : Text) (opts : Map Text) (j : Text) (s : Store)
        → IsCached s
        → IsCached (serve_key ask fresh plugins t path opts j s).0
    unfolding serve_key
    serve_key-IsCached plugins t path opts j s c =
        elim (Option-cases (Session.get_cached_secret j (cache_key t path) s)) [
          | inr (x, hit) ↦ rw (hit, serve_key) c
          | inl miss ↦ elim (Option-cases plugins) [
            | inl nothing ↦ rw (miss, serve_key) (rw (nothing, serve_key) c)
            | inr (m, some_m) ↦ elim (Result-cases (Manager.get t m)) [
              | inr (e, failed) ↦
                  rw (miss, serve_key) (rw (some_m, serve_key) (rw (failed, serve_key) c))
              | inl (p, got) ↦
                  rw (miss, serve_key)
                    (rw (some_m, serve_key)
                      (rw (got, serve_key)
                        (fetch-IsCached p path (cache_key t path) opts j s miss c)))
            ]
          ]
        ]

    serve-IsCached :
        (cfg : Config) (plugins : Option (Manager P)) (req : GetSecretRequest) (s : Store)
        → IsCached s
        → IsCached (serve ask fresh cfg plugins req s).0
    unfolding serve
    serve-IsCached cfg plugins req s c = elim (Result-cases (resolve_key cfg req)) [
      | inr (e, failed) ↦ rw (failed, serve) c
      | inl ((t, path, opts), resolved) ↦
          rw (resolved, serve) (serve_key-IsCached plugins t path opts req.session_id s c)
    ]

    get_secret-IsCached :
        (cfg : Config) (plugins : Option (Manager P)) (now : ℤ) (req : GetSecretRequest) (s : Store)
        → is_expired now sess ≡ false
        → IsCached s
        → IsCached (get_secret ask fresh cfg plugins now req s).0
    unfolding get_secret serve_session
    get_secret-IsCached cfg plugins now req s h c = elim (get-cases now req.session_id s) [
      | inl g ↦ rw g c
      | inr r ↦ elim r [
        | inl g ↦ rw g (elim (Bool-cases (text_eq req.session_id id)) [
          | inr other ↦
              same-IsCached s (get_expire req.session_id s) (expire-lookup req.session_id s other) c
          | inl same ↦
              let e : req.session_id ≡ id = (text_eq_iff req.session_id id).0 same in
              let l : Session.get now req.session_id s ≡ (s, ok c.after) =
                get_live now req.session_id s c.after (ap (λ i. lookup i s.sessions) e ∙ c.there)
                  (young now s c h) in
              absurd (cc (ap (λ x. x.1) (sym g ∙ l)))
        ])
        | inr (x, g) ↦ rw g (serve-IsCached cfg plugins req s c)
      ]
    ]

  start-IsCached :
      (parse_duration : Text → Option ℤ) (cfg : Config) (random : Option Text) (now : ℤ)
      (req : SessionStartRequest) (s : Store)
      → generate_id random ≢ ok id
      → IsCached s
      → IsCached (session_start parse_duration cfg random now req s).0
  unfolding session_start Session.create Session.create_with
  start-IsCached parse_duration cfg random now req s h c =
      elim (Result-cases (parse_ttl parse_duration req.ttl cfg.defaults.session_ttl)) [
        | inr (e, failed) ↦ rw (failed, session_start) c
        | inl (ttl, parsed) ↦ elim (Result-cases (generate_id random)) [
          | inr (e, failed) ↦ rw (parsed, session_start) (rw (failed, Session.create) c)
          | inl (j, made) ↦
              let other : text_eq j id ≡ false = elim (Bool-cases (text_eq j id)) [
                | inr o ↦ o
                | inl same ↦ absurd (h (made ∙ ap (λ x. ok x) ((text_eq_iff j id).0 same)))
              ] in
              rw (parsed, session_start)
                (rw (made, Session.create)
                  (same-IsCached s _ (lookup-insert j id _ s.sessions ∙ rw other refl) c))
        ]
      ]

  delete-IsCached :
      (prefix : Text) (found : List Session.Session) (s : Store)
      → wrap_err deleting (delete_found prefix found s).1 ≢ ok id
      → IsCached s
      → IsCached (delete_found prefix found s).0
  unfolding delete_found
  delete-IsCached prefix [] s h c = c
  delete-IsCached prefix (x ∷ y ∷ more) s h c = c
  delete-IsCached prefix (x ∷ []) s h c = elim (Option-cases (lookup x.id s.sessions)) [
    | inl gone ↦ rw (gone, delete_found) c
    | inr (y, there) ↦
        let other : text_eq x.id id ≡ false = elim (Bool-cases (text_eq x.id id)) [
          | inr o ↦ o
          | inl same ↦
              absurd
                ((rw (there, delete_found) at h) (ap (λ i. ok i) ((text_eq_iff x.id id).0 same)))
        ] in
        rw (there, delete_found) (same-IsCached s _ (remove-lookup x.id y s other) c)
  ]

  cleanup-lookup :
      (now : ℤ) (m : Map Session.Session) (h : Heap) (x : Session.Session)
      → lookup id m ≡ some x
      → is_expired now x ≡ false
      → lookup id (cleanup_loop now m h).0 ≡ some x
  unfolding cleanup_loop lookup
  cleanup-lookup now [] h x there fresh = absurd (cc)
  cleanup-lookup now ((j, y) ∷ m) h x there fresh = elim (Bool-cases (text_eq j id)) [
    | inl same ↦
        let e : y ≡ x = cc (rw same at there) in
        let still : is_expired now y ≡ false = ap (is_expired now) e ∙ fresh in
        rw (still, cleanup_loop) (rw (same, lookup) (ap (λ z. some z) e))
    | inr other ↦
        let there' : lookup id m ≡ some x = rw other at there in
        elim (Bool-cases (is_expired now y)) [
          | inl old ↦ rw (old, cleanup_loop) (cleanup-lookup now m _ x there' fresh)
          | inr kept ↦
              rw (kept, cleanup_loop) (rw (other, lookup) (cleanup-lookup now m h x there' fresh))
        ]
  ]

  cleanup-IsCached :
      (now : ℤ) (s : Store)
      → is_expired now sess ≡ false
      → IsCached s
      → IsCached (Session.cleanup now s).0
  unfolding Session.cleanup
  cleanup-IsCached now s h c =
      same-IsCached s _
        (cleanup-lookup now s.sessions s.heap c.after c.there (young now s c h) ∙ sym c.there) c

  handle-IsCached :
      {P : Type 0} (x : Traffic P) (s : Store)
      → Spares id sess s x
      → IsCached s
      → IsCached (handle x s)
  unfolding handle session_end Session.delete_session
  handle-IsCached (asks ask fresh cfg plugins now req) s h c =
      get_secret-IsCached ask fresh cfg plugins now req s h c
  handle-IsCached (starts parse_duration cfg random now req) s h c =
      start-IsCached parse_duration cfg random now req s h c
  handle-IsCached (ends prefix) s h c = delete-IsCached prefix (get_by_mask prefix s) s h c
  handle-IsCached (cleans now) s h c = cleanup-IsCached now s h c

  -- Calls that spare the session leave the secret in its cache.
  pub handle_all-Cached :
      {P : Type 0} (cs : List (Traffic P)) (s : Store)
      → AllSpare id sess s cs
      → Cached id key sess secret s
      → Cached id key sess secret (handle_all cs s)
  unfolding handle_all
  handle_all-Cached [] s h c = c
  handle_all-Cached (x ∷ cs) s h c =
      handle_all-Cached cs (handle x s) h.1 (handle-IsCached x s h.0 c)
