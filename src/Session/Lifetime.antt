-- ===== src/Session/Lifetime.antt =====
-- How long a session lives: creation, expiry, and that a session that is gone stays gone, with the
-- two critical sections of `Get` interleaved with other calls.
use locksmith.Common.{
  ◌≡◌, ◌⊎◌, ◌∙◌, refl, ap, sym, subst, false, List, inl, inr, Option, some, Result, ok, err,
  if◌then◌else◌, Bool-cases, Option-cases, Result-cases,
}
use locksmith.Common.Int.{ℤ, ◌+ℤ◌, ltb_ℤ}
use locksmith.Common.Text.{Text}
use locksmith.Common.Assoc.{lookup, lookup-insert_self}
use locksmith.Session.{
  Session, Store, Error, not_found, expired, generate_id, create_with, create, is_expired, Found,
  missing, stale, live, get_read, get_expire, get,
}

create_stored :
    (b : Option Text) (now ttl : ℤ) (allowed : List Text) (s s' : Store) (sess : Session)
    → create b now ttl allowed s ≡ (s', ok sess)
    → (lookup sess.id s'.sessions ≡ some sess) × (sess.expires_at ≡ now +ℤ ttl)
unfolding create create_with
create_stored b now ttl allowed s s' sess e = elim (Result-cases (generate_id b)) [
  | inr (x, failed) ↦ absurd (cc (rw (failed, create) at e))
  | inl (id, made) ↦
      let (s1, sess1) = create_with id now ttl allowed s in
      let e' : ◌≡◌ {A = Store × Result Error Session} (s1, ok sess1) (s', ok sess) =
        rw (made, create) at e in
      let p : sess1 ≡ sess = cc in
      let q : s1 ≡ s' = ap (λ (x : Store × Result Error Session). x.0) e' in
      let stored : lookup sess1.id s1.sessions ≡ some sess1 =
        lookup-insert_self id sess1 s.sessions in
      (
        subst (λ x. lookup sess.id x.sessions ≡ some sess) q
            (subst (λ y. lookup y.id s1.sessions ≡ some y) p stored),
        subst (λ y. y.expires_at ≡ now +ℤ ttl) p refl,
      )
]

get_at :
    (later : ℤ) (id : Text) (s : Store) (sess : Session)
    → lookup id s.sessions ≡ some sess
    → get later id s
      ≡ (if is_expired later sess then (get_expire id s, err (expired id)) else (s, ok sess))
get_at later id s sess there = elim (Bool-cases (is_expired later sess)) [
  | inl over ↦
      let r : get_read later id s ≡ stale = unfold get_read in rw (there, get_read) (rw over) in
      rw over (unfold get in rw (r, get))
  | inr young ↦
      let r : get_read later id s ≡ live sess =
        unfold get_read in rw (there, get_read) (rw young) in
      rw young (unfold get in rw (r, get))
]

-- A session is handed out until its expiry time has passed, and from then on it is an error that
-- also takes it out of the store.
pub get-create :
    (b : Option Text) (now ttl later : ℤ) (allowed : List Text) (s s' : Store) (sess : Session)
    → create b now ttl allowed s ≡ (s', ok sess)
    → get later sess.id s' ≡ (
        if ltb_ℤ (now +ℤ ttl) later
        then (get_expire sess.id s', err (expired sess.id))
        else (s', ok sess))
unfolding is_expired
get-create b now ttl later allowed s s' sess e =
    let (there, until) = create_stored b now ttl allowed s s' sess e in
    get_at later sess.id s' sess there
    ∙ ap
        (λ (x : ℤ).
          if ltb_ℤ x later then (get_expire sess.id s', err (expired sess.id)) else (s', ok sess))
        until

-- A `Get` that succeeds has found a live session and has changed nothing.
pub get-ok :
    (now : ℤ) (id : Text) (s s' : Store) (sess : Session)
    → get now id s ≡ (s', ok sess)
    → (s' ≡ s) × (lookup id s.sessions ≡ some sess) × (is_expired now sess ≡ false)
get-ok now id s s' sess e = elim (Option-cases (lookup id s.sessions)) [
  | inl gone ↦
      let r : get_read now id s ≡ missing = unfold get_read in rw (gone, get_read) in
      let g : get now id s ≡ (s, err (not_found id)) = unfold get in rw (r, get) in absurd (cc)
  | inr (found, there) ↦
      let g = get_at now id s found there in
      elim (Bool-cases (is_expired now found)) [
        | inl over ↦
            let g' : get now id s ≡ (get_expire id s, err (expired id)) = rw over at g in
            absurd (cc)
        | inr young ↦
            let g' : get now id s ≡ (s, ok found) = rw young at g in
            let q : ◌≡◌ {A = Store × Result Error Session} (s, ok found) (s', ok sess) =
              sym g' ∙ e in
            let same : found ≡ sess = cc in
            (
              sym (ap (λ (x : Store × Result Error Session). x.0) q),
              subst (λ x. lookup id s.sessions ≡ some x) same there,
              subst (λ x. is_expired now x ≡ false) same young,
            )
      ]
]

-- A live session is handed out.
pub get_live :
    (now : ℤ) (id : Text) (s : Store) (sess : Session)
    → lookup id s.sessions ≡ some sess
    → is_expired now sess ≡ false
    → get now id s ≡ (s, ok sess)
get_live now id s sess there young = rw young at (get_at now id s sess there)

-- The three ways in which `Get` ends.
pub get-cases :
    (now : ℤ) (id : Text) (s : Store)
    → (get now id s ≡ (s, err (not_found id)))
      ⊎ ((get now id s ≡ (get_expire id s, err (expired id)))
          ⊎ ((sess : Session) × (get now id s ≡ (s, ok sess))))
get-cases now id s = go (get_read now id s) refl
  where
    go :
        (f : Found)
        → get_read now id s ≡ f
        → (get now id s ≡ (s, err (not_found id)))
          ⊎ ((get now id s ≡ (get_expire id s, err (expired id)))
              ⊎ ((sess : Session) × (get now id s ≡ (s, ok sess))))
    go missing e = inl (unfold get in rw (e, get))
    go stale e = inr (inl (unfold get in rw (e, get)))
    go (live sess) e = inr (inr (sess, unfold get in rw (e, get)))
