-- ===== src/Session/History.antt =====
-- What becomes of the session under one id through any sequence of calls of
-- internal/session/session.go.
use locksmith.Common.{
  ℕ, ◌≡◌, ◌∙◌, refl, ap, sym, subst, false, List, [], ◌∷◌, inl, inr, Option, some, ok, All,
  Bool-cases, Option-cases, Result-cases,
}
use locksmith.Common.Int.{ℤ}
use locksmith.Common.Text.{Text, text_eq, text_eq_iff}
use locksmith.Common.Assoc.{Map, lookup, insert, lookup-insert, DistinctKeys}
use locksmith.Session.{
  Session, Store, generate_id, create_with, create, is_expired, Found, missing, stale, live,
  get_read, get_expire, get, delete_found, get_by_mask, delete_session, cache_secret, cleanup, Call,
  creates, gets, expires, deletes, caches, cleans, step, run,
}
use locksmith.Session.Valid.{IsValid, IsCall, step-IsValid}
use locksmith.Session.Naming.{lookup_later}
use locksmith.Session.Wiping.{Removed, remove_session-Removed, unexpired, cleanup-Cleaned}

-- The call makes a session under this id.
abbrev pub Makes : Text → Call → Type 0
Makes id (creates random now ttl allowed) = generate_id random ≡ ok id
Makes id _ = ⊥

-- What stands under `id` in the later store stood there in the earlier one, with the same limits.
abbrev pub Follows : Text → Store → Store → Type 0
Follows id s s' =
    (now : Session)
    → lookup id s'.sessions ≡ some now
    → (before : Session) × (lookup id s.sessions ≡ some before)
      × (now.expires_at ≡ before.expires_at)
      × (now.allowed_keys ≡ before.allowed_keys)

Follows-of_eq :
    (id : Text) (s s' : Store) → lookup id s'.sessions ≡ lookup id s.sessions → Follows id s s'
Follows-of_eq id s s' e now l = (now, sym e ∙ l, refl, refl)

Removed-Follows :
    (id j : Text) (sess : Session) (s s' : Store) → Removed j sess s s' → Follows id s s'
Removed-Follows id j sess s s' r now l = elim (Bool-cases (text_eq j id)) [
  | inl same ↦ absurd (cc (rw (r.sessions_after id, same) at l))
  | inr other ↦ (now, rw (r.sessions_after id, other) at l, refl, refl)
]

create-Follows :
    (id : Text) (b : Option Text) (now ttl : ℤ) (allowed : List Text) (s : Store)
    → ¬ (generate_id b ≡ ok id)
    → Follows id s (create b now ttl allowed s).0
unfolding create create_with
create-Follows id b now ttl allowed s h = elim (Result-cases (generate_id b)) [
  | inr (x, failed) ↦ rw (failed, create) (Follows-of_eq id s s refl)
  | inl (made_id, made) ↦
      let ne : text_eq made_id id ≡ false = other_id made_id made in
      rw (made, create)
        (Follows-of_eq id s (create_with made_id now ttl allowed s).0
          (rw (lookup-insert made_id id _ s.sessions, ne)))
]
  where
    other_id : (j : Text) → generate_id b ≡ ok j → text_eq j id ≡ false
    other_id j made = elim (Bool-cases (text_eq j id)) [
      | inr ne ↦ ne
      | inl same ↦ absurd (h (made ∙ ap ok ((text_eq_iff j id).0 same)))
    ]

get_expire-Follows : (id j : Text) (s : Store) → Follows id s (get_expire j s)
unfolding get_expire
get_expire-Follows id j s = elim (Option-cases (lookup j s.sessions)) [
  | inl gone ↦ rw (gone, get_expire) (Follows-of_eq id s s refl)
  | inr (sess, there) ↦
      rw (there, get_expire) (Removed-Follows id j sess s _ (remove_session-Removed j sess s there))
]

get-Follows : (id j : Text) (now : ℤ) (s : Store) → Follows id s (get now j s).0
get-Follows id j now s = go (get_read now j s) refl
  where
    go : (f : Found) → get_read now j s ≡ f → Follows id s (get now j s).0
    go missing e = unfold get in rw (e, get) (Follows-of_eq id s s refl)
    go stale e = unfold get in rw (e, get) (get_expire-Follows id j s)
    go (live sess) e = unfold get in rw (e, get) (Follows-of_eq id s s refl)

delete_session-Follows : (id p : Text) (s : Store) → Follows id s (delete_session p s).0
delete_session-Follows id p s = go (get_by_mask p s) refl
  where
    go : (found : List Session) → get_by_mask p s ≡ found → Follows id s (delete_session p s).0
    go [] e = unfold delete_session delete_found in rw (e, delete_found) (Follows-of_eq id s s refl)
    go (f ∷ g ∷ more) e =
        unfold delete_session delete_found in rw (e, delete_found) (Follows-of_eq id s s refl)
    go (f ∷ []) e = elim (Option-cases (lookup f.id s.sessions)) [
      | inl gone ↦
          unfold delete_session delete_found in
          rw (e, delete_found) (rw (gone, delete_found) (Follows-of_eq id s s refl))
      | inr (sess, there) ↦
          unfold delete_session delete_found in
          rw (e, delete_found)
            (rw (there, delete_found)
              (Removed-Follows id f.id sess s _ (remove_session-Removed f.id sess s there)))
    ]

cache_secret-Follows :
    (id j key : Text) (secret : ℕ) (s : Store) → Follows id s (cache_secret j key secret s)
unfolding cache_secret
cache_secret-Follows id j key secret s = elim (Option-cases (lookup j s.sessions)) [
  | inl gone ↦ rw (gone, cache_secret) (Follows-of_eq id s s refl)
  | inr (sess, there) ↦ elim (Bool-cases (text_eq j id)) [
    | inr other ↦
        rw (there, cache_secret)
          (Follows-of_eq id s
            (record s {
              sessions =
                  insert j (record sess { secrets = insert key secret sess.secrets }) s.sessions;
            })
            (rw (lookup-insert j id _ s.sessions, other)))
    | inl same ↦
        rw (there, cache_secret)
          (λ now l.
            let e = some_eq _ now (rw (lookup-insert j id _ s.sessions, same) at l) in
            (
              sess,
              subst (λ t. lookup t s.sessions ≡ some sess) ((text_eq_iff j id).0 same) there,
              sym (ap (λ (x : Session). x.expires_at) e),
              sym (ap (λ (x : Session). x.allowed_keys) e),
            ))
  ]
]
  where
    some_eq : (a b : Session) → some a ≡ some b → a ≡ b
    some_eq a b p = cc

lookup-unexpired :
    (now : ℤ) (k : Text) (m : Map Session) (sess : Session)
    → DistinctKeys m
    → lookup k (unexpired now m) ≡ some sess
    → lookup k m ≡ some sess
unfolding lookup unexpired
lookup-unexpired now k [] sess d l = l
lookup-unexpired now k ((j, w) ∷ m) sess d l = elim (Bool-cases (is_expired now w)) [
  | inl old ↦ lookup_later j k w sess m d.0 (lookup-unexpired now k m sess d.1 (rw old at l))
  | inr new ↦ elim (Bool-cases (text_eq j k)) [
    | inl same ↦
        let l' : lookup k ((j, w) ∷ unexpired now m) ≡ some sess = rw new at l in
        rw same (rw same at l')
    | inr other ↦
        let l' : lookup k ((j, w) ∷ unexpired now m) ≡ some sess = rw new at l in
        rw other (lookup-unexpired now k m sess d.1 (rw other at l'))
  ]
]

cleanup-Follows : (id : Text) (now : ℤ) (s : Store) → IsValid s → Follows id s (cleanup now s).0
cleanup-Follows id now s v after l = (
  after,
  lookup-unexpired now id s.sessions after v.distinct (rw (cleanup-Cleaned now s).0 at l),
  refl,
  refl,
)

step-Follows :
    (id : Text) (s : Store) (c : Call) → IsValid s → ¬ Makes id c → Follows id s (step s c)
unfolding step
step-Follows id s (creates b now ttl allowed) v h = create-Follows id b now ttl allowed s h
step-Follows id s (gets now j) v h = get-Follows id j now s
step-Follows id s (expires j) v h = get_expire-Follows id j s
step-Follows id s (deletes p) v h = delete_session-Follows id p s
step-Follows id s (caches j key secret) v h = cache_secret-Follows id j key secret s
step-Follows id s (cleans now) v h = cleanup-Follows id now s v

-- From a valid store, whatever calls come between, a session that stands under `id` in the end stood there at the start
-- with the same expiry time and allowlist, unless a call made one under that very id.
pub run-Follows :
    (id : Text) (s : Store) (cs : List Call)
    → IsValid s
    → All IsCall cs
    → All (λ c. ¬ Makes id c) cs
    → Follows id s (run s cs)
unfolding run
run-Follows id s [] v ok_cs h = Follows-of_eq id s s refl
run-Follows id s (c ∷ cs) v ok_cs h = λ now l.
    let (mid, l1, e1, a1) =
      run-Follows id (step s c) cs (step-IsValid s c ok_cs.0 v) ok_cs.1 h.1 now l in
    let (first, l0, e0, a0) = step-Follows id s c v h.0 mid l1 in (first, l0, e1 ∙ e0, a1 ∙ a0)
