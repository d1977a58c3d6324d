-- ===== src/Session/Revival.antt =====
-- A session that is gone stays gone, with the two critical sections of `Get` interleaved with other
-- calls of internal/session/session.go.
use locksmith.Common.{
  ◌≡◌, ◌∙◌, sym, subst, true, List, inl, inr, none, some, Result, ok, err, All, Bool-cases,
  Option-cases,
}
use locksmith.Common.Int.{ℤ, ltb_ℤ}
use locksmith.Common.Text.{Text, text_eq_refl}
use locksmith.Common.Assoc.{lookup}
use locksmith.Session.{
  Session, Store, Error, not_found, is_expired, missing, stale, get_read, get_expire, get,
  delete_session, Call, deletes, step, run,
}
use locksmith.Session.Valid.{IsValid, IsCall, step-IsValid}
use locksmith.Session.Wiping.{Removed, remove_session-Removed, delete_session-Removed}
use locksmith.Session.History.{Makes, run-Follows}

-- After a successful `Delete` of a session from a valid store, whatever calls follow, `Get` of its id
-- reports that there is none, at every time, as long as no call makes a session under that very id.
pub get-delete_session :
    (p id : Text) (s s' : Store) (cs : List Call) (now : ℤ)
    → IsValid s
    → delete_session p s ≡ (s', ok id)
    → All IsCall cs
    → All (λ c. ¬ Makes id c) cs
    → get now id (run s' cs) ≡ (run s' cs, err (not_found id))
unfolding get
get-delete_session p id s s' cs now v e ok_cs h =
    let (sess, r) = delete_session-Removed p id s s' e in
    let v' : IsValid s' =
      subst (λ (x : Store × Result Error Text). IsValid x.0) e
        (unfold step in step-IsValid s (deletes p) tt v) in
    let gone : lookup id s'.sessions ≡ none = r.sessions_after id ∙ rw text_eq_refl in
    elim (Option-cases (lookup id (run s' cs).sessions)) [
      | inl none_left ↦
          let m : get_read now id (run s' cs) ≡ missing =
            unfold get_read in rw (none_left, get_read) in
          rw (m, get)
      | inr (back, there) ↦
          let (before, l, _, _) = run-Follows id s' cs v' ok_cs h back there in absurd (cc)
    ]

stale_expired :
    (now : ℤ) (id : Text) (s : Store) (sess : Session)
    → lookup id s.sessions ≡ some sess
    → get_read now id s ≡ stale
    → is_expired now sess ≡ true
unfolding get_read
stale_expired now id s sess l e = elim (Bool-cases (is_expired now sess)) [
  | inl over ↦ over
  | inr young ↦ absurd (cc (rw (l, get_read) at e))
]

expire_there :
    (id : Text) (sess : Session) (s : Store)
    → lookup id s.sessions ≡ some sess
    → Removed id sess s (get_expire id s)
unfolding get_expire
expire_there id sess s there = rw (there, get_expire) (remove_session-Removed id sess s there)

-- `Get` reads under one lock and deletes under another, and re-checks only that the session is still
-- there. In a valid store, whatever calls come between, none of which makes a session under that very
-- id, what it then deletes has expired at the time of the read.
pub get_expire_safe :
    (now : ℤ) (id : Text) (s : Store) (cs : List Call) (sess : Session)
    → IsValid s
    → All IsCall cs
    → All (λ c. ¬ Makes id c) cs
    → get_read now id s ≡ stale
    → lookup id (run s cs).sessions ≡ some sess
    → (is_expired now sess ≡ true) × Removed id sess (run s cs) (get_expire id (run s cs))
unfolding is_expired
get_expire_safe now id s cs sess v ok_cs h was_stale there =
    let (before, l, until, _) = run-Follows id s cs v ok_cs h sess there in
    (
      subst (λ (t : ℤ). ltb_ℤ t now ≡ true) (sym until) (stale_expired now id s before l was_stale),
      expire_there id sess (run s cs) there,
    )
