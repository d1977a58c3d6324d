-- ===== src/Session/Secrets.antt =====
-- The secrets that a session caches: CacheSecret, GetCachedSecret and isKeyAllowed of
-- internal/session/session.go.
use locksmith.Common.{
  ℕ, ◌≡◌, ◌↔◌, ◌⊎◌, ◌∙◌, refl, ap, subst, true, List, [], ◌∷◌, inl, inr, Option, none, some, arith,
  if◌then◌else◌, Bool-cases, ◌&&◌,
}
use locksmith.Common.Text.{Text, text_eq, text_eq_iff, text_eq_refl, Among}
use locksmith.Common.Assoc.{Map, lookup, insert, lookup-insert, lookup-insert_self}
use locksmith.Session.{Session, Store, is_key_allowed, in_list, cache_secret, get_cached_secret}

in_list-Among : (key : Text) (ks : List Text) → in_list key ks ≡ true → Among key ks
unfolding in_list
in_list-Among key [] e = absurd (cc)
in_list-Among key (k ∷ ks) e = elim (Bool-cases (text_eq k key)) [
  | inl same ↦ inl ((text_eq_iff k key).0 same)
  | inr other ↦ inr (in_list-Among key ks (rw other at e))
]

Among-in_list : (key : Text) (ks : List Text) → Among key ks → in_list key ks ≡ true
unfolding in_list
Among-in_list key [] h = absurd h
Among-in_list key (k ∷ ks) (inl e) = rw ((text_eq_iff k key).1 e)
Among-in_list key (k ∷ ks) (inr h) = elim (Bool-cases (text_eq k key)) [
  | inl same ↦ rw same
  | inr other ↦ rw other (Among-in_list key ks h)
]

allowed_iff :
    (sess : Session) (key : Text) (ks : List Text)
    → sess.allowed_keys ≡ ks
    → (is_key_allowed sess key ≡ true) ↔ ((ks ≡ []) ⊎ Among key ks)
unfolding is_key_allowed
allowed_iff sess key [] e = (λ _. inl refl, λ _. rw (e, is_key_allowed))
allowed_iff sess key (k ∷ ks) e = (
  λ h. inr (in_list-Among key (k ∷ ks) (rw (e, is_key_allowed) at h)),
  λ h. rw (e, is_key_allowed) (Among-in_list key (k ∷ ks) (listed h)),
)
  where
    listed : (k ∷ ks ≡ []) ⊎ Among key (k ∷ ks) → Among key (k ∷ ks)
    listed (inl p) = absurd (cc)
    listed (inr a) = a

-- A key is allowed exactly when the allowlist is empty or names it.
pub is_key_allowed_iff :
    (sess : Session) (key : Text)
    → (is_key_allowed sess key ≡ true) ↔ ((sess.allowed_keys ≡ []) ⊎ Among key sess.allowed_keys)
is_key_allowed_iff sess key = allowed_iff sess key sess.allowed_keys refl

get_cached_at :
    (id key : Text) (s : Store) (sess : Session)
    → lookup id s.sessions ≡ some sess
    → get_cached_secret id key s
      ≡ (if is_key_allowed sess key then lookup key sess.secrets else none)
unfolding get_cached_secret
get_cached_at id key s sess e = rw (e, get_cached_secret)

allowed_same :
    (sess : Session) (m : Map ℕ) (key : Text)
    → is_key_allowed (record sess { secrets = m }) key ≡ is_key_allowed sess key
unfolding is_key_allowed
allowed_same sess m key = refl

-- What `CacheSecret` stores under a key of a session is what `GetCachedSecret` returns for that key
-- of that session, if the allowlist admits the key; for any other session or key nothing changes.
pub get_cached_secret-cache_secret :
    (id key j k : Text) (secret : ℕ) (s : Store) (sess : Session)
    → lookup id s.sessions ≡ some sess
    → get_cached_secret j k (cache_secret id key secret s) ≡ (
        if text_eq id j && text_eq key k
        then (if is_key_allowed sess k then some secret else none)
        else get_cached_secret j k s)
unfolding cache_secret
get_cached_secret-cache_secret id key j k secret s sess there =
    let sess' : Session = record sess { secrets = insert key secret sess.secrets } in
    let s' : Store = record s { sessions = insert id sess' s.sessions } in
    rw (there, cache_secret)
      (elim (Bool-cases (text_eq id j)) [
        | inr other ↦
            let same : lookup j s'.sessions ≡ lookup j s.sessions =
              rw (lookup-insert id j sess' s.sessions, other) in
            rw other (
              unfold get_cached_secret in
              ap
                (λ o. elim o as (λ _. Option ℕ) [
                  | none ↦ none
                  | some x ↦ if is_key_allowed x k then lookup k x.secrets else none
                ])
                same)
        | inl same ↦
            let at_j : lookup j s'.sessions ≡ some sess' =
              rw (lookup-insert id j sess' s.sessions, same) in
            let at_j0 : lookup j s.sessions ≡ some sess =
              subst (λ t. lookup t s.sessions ≡ some sess) ((text_eq_iff id j).0 same) there in
            rw (same, get_cached_at j k s' sess' at_j, get_cached_at j k s sess at_j0)
              (rw (allowed_same sess (insert key secret sess.secrets) k)
                (ground (arith, lookup-insert key k secret sess.secrets)))
      ])

-- The session that has cached a secret is there as before, but for its cache.
pub cache_secret_there :
    (id key : Text) (secret : ℕ) (s : Store) (sess : Session)
    → lookup id s.sessions ≡ some sess
    → lookup id (cache_secret id key secret s).sessions
      ≡ some (record sess { secrets = insert key secret sess.secrets })
unfolding cache_secret
cache_secret_there id key secret s sess there =
    rw (there, cache_secret)
      (lookup-insert_self id (record sess { secrets = insert key secret sess.secrets }) s.sessions)

-- With no allowlist a secret that has been cached is found under its key.
pub get_cached_self :
    (id key : Text) (secret : ℕ) (s : Store) (sess : Session)
    → lookup id s.sessions ≡ some sess
    → sess.allowed_keys ≡ []
    → get_cached_secret id key (cache_secret id key secret s) ≡ some secret
get_cached_self id key secret s sess there free =
    get_cached_secret-cache_secret id key id key secret s sess there
    ∙ rw (text_eq_refl id, text_eq_refl key) (rw ((is_key_allowed_iff sess key).1 (inl free)))
