-- ===== src/Session/Naming.antt =====
-- The session that a prefix names, for Delete of internal/session/session.go.
use locksmith.Common.{
  ◌≡◌, ◌≢◌, ◌↔◌, ◌∙◌, refl, ap, sym, subst, true, List, [], ◌∷◌, inl, inr, some, ok, err, arith,
  All, Bool-cases, Option-cases,
}
use locksmith.Common.Text.{Text, text_eq, text_eq_iff, text_eq_refl, has_prefix, to_lower}
use locksmith.Common.Assoc.{Map, lookup, DistinctKeys, HasNoKey, HasNoKey-lookup}
use locksmith.Session.{Session, Store, multiple, get_by_mask, delete_found, delete_session}
use locksmith.Session.Valid.{IsEntry, IsValid, All-lookup}
use locksmith.Session.Prefix.{matching, get_by_mask-matching, entry_key}

abbrev pub Only : Text → Text → Map Session → Type 0
Only p id m = (k : Text) (sess : Session) → lookup k m ≡ some sess → has_prefix k p ≡ true → k ≡ id

-- A session of the tail is found in the whole map too.
pub lookup_later :
    (j k : Text) (w sess : Session) (m : Map Session)
    → HasNoKey j m
    → lookup k m ≡ some sess
    → lookup k ((j, w) ∷ m) ≡ some sess
unfolding lookup
lookup_later j k w sess m d e = elim (Bool-cases (text_eq j k)) [
  | inl same ↦
      absurd (cc (HasNoKey-lookup k m (subst (λ t. HasNoKey t m) ((text_eq_iff j k).0 same) d)))
  | inr other ↦ rw other e
]

Only-tail :
    (p id j : Text) (w : Session) (m : Map Session)
    → HasNoKey j m
    → Only p id ((j, w) ∷ m)
    → Only p id m
Only-tail p id j w m d u k sess e h = u k sess (lookup_later j k w sess m d e) h

lookup_first : (j : Text) (w : Session) (m : Map Session) → lookup j ((j, w) ∷ m) ≡ some w
unfolding lookup
lookup_first j w m = rw text_eq_refl

matching-nil :
    (p id : Text) (m : Map Session)
    → DistinctKeys m
    → All IsEntry m
    → Only p id m
    → HasNoKey id m
    → matching p m ≡ []
unfolding matching
matching-nil p id [] d h u n = refl
matching-nil p id ((j, w) ∷ m) d h u n = elim (Bool-cases (has_prefix (to_lower w.id) p)) [
  | inr other ↦ rw other (matching-nil p id m d.1 h.1 (Only-tail p id j w m d.0 u) n.1)
  | inl same ↦
      let e : j ≡ id = u j w (lookup_first j w m) (rw (entry_key j w h.0) at same) in
      absurd (ground (arith, text_eq_iff j id, n.0))
]

matching-one :
    (p id : Text) (sess : Session) (m : Map Session)
    → DistinctKeys m
    → All IsEntry m
    → Only p id m
    → lookup id m ≡ some sess
    → has_prefix id p ≡ true
    → matching p m ≡ sess ∷ []
unfolding matching lookup
matching-one p id sess [] d h u l q = absurd (cc)
matching-one p id sess ((j, w) ∷ m) d h u l q = elim (Bool-cases (text_eq j id)) [
  | inl same ↦
      let e : j ≡ id = (text_eq_iff j id).0 same in
      let found : has_prefix (to_lower w.id) p ≡ true = rw (entry_key j w h.0) (rw e q) in
      let rest : matching p m ≡ [] =
        matching-nil p id m d.1 h.1 (Only-tail p id j w m d.0 u)
          (subst (λ t. HasNoKey t m) e d.0) in
      let at_head : some w ≡ some sess = rw same at l in rw found (cc)
  | inr other ↦
      let ih : matching p m ≡ sess ∷ [] =
        matching-one p id sess m d.1 h.1 (Only-tail p id j w m d.0 u) (rw other at l) q in
      elim (Bool-cases (has_prefix (to_lower w.id) p)) [
        | inr missed ↦ rw missed ih
        | inl hit ↦
            let e : j ≡ id = u j w (lookup_first j w m) (rw (entry_key j w h.0) at hit) in
            absurd (ground (arith, text_eq_iff j id))
      ]
]

-- A session with the prefix is never left out of the matches.
matching-ne-nil :
    (p k : Text) (sess : Session) (m : Map Session)
    → All IsEntry m
    → lookup k m ≡ some sess
    → has_prefix k p ≡ true
    → matching p m ≢ []
unfolding matching lookup
matching-ne-nil p k sess [] h l q e = cc
matching-ne-nil p k sess ((j, w) ∷ m) h l q e = elim (Bool-cases (has_prefix (to_lower w.id) p)) [
  | inl hit ↦ cc (rw hit at e)
  | inr miss ↦ elim (Bool-cases (text_eq j k)) [
    | inl same ↦
        let found : has_prefix (to_lower w.id) p ≡ true =
          rw (entry_key j w h.0) (rw ((text_eq_iff j k).0 same) q) in
        cc
    | inr other ↦ matching-ne-nil p k sess m h.1 (rw other at l) q (rw miss at e)
  ]
]

matching-All :
    (p k : Text) (sess f : Session) (m : Map Session)
    → All IsEntry m
    → matching p m ≡ f ∷ []
    → lookup k m ≡ some sess
    → has_prefix k p ≡ true
    → sess ≡ f
unfolding matching lookup
matching-All p k sess f [] h e l q = absurd (cc)
matching-All p k sess f ((j, w) ∷ m) h e l q = elim (Bool-cases (has_prefix (to_lower w.id) p)) [
  | inl hit ↦
      let e' : w ∷ matching p m ≡ f ∷ [] = rw hit at e in
      elim (Bool-cases (text_eq j k)) [
        | inl same ↦ let l' : some w ≡ some sess = rw same at l in cc
        | inr other ↦ absurd (matching-ne-nil p k sess m h.1 (rw other at l) q (cc))
      ]
  | inr miss ↦ elim (Bool-cases (text_eq j k)) [
    | inl same ↦
        let found : has_prefix (to_lower w.id) p ≡ true =
          rw (entry_key j w h.0) (rw ((text_eq_iff j k).0 same) q) in
        cc
    | inr other ↦ matching-All p k sess f m h.1 (rw miss at e) (rw other at l) q
  ]
]

-- What a match is.
matching-hit :
    (p : Text) (f : Session) (m : Map Session)
    → matching p m ≡ f ∷ []
    → has_prefix (to_lower f.id) p ≡ true
unfolding matching
matching-hit p f [] e = absurd (cc)
matching-hit p f ((j, w) ∷ m) e = elim (Bool-cases (has_prefix (to_lower w.id) p)) [
  | inl hit ↦ let e' : w ∷ matching p m ≡ f ∷ [] = rw hit at e in cc
  | inr miss ↦ matching-hit p f m (rw miss at e)
]

-- `id` is in the store, and is the one id there that has the prefix, in lower case.
pub record IsNamedBy (p id : Text) (s : Store) : Type 0 where
  pub sess : Session
  pub there : lookup id s.sessions ≡ some sess
  pub has : has_prefix id (to_lower p) ≡ true
  pub only : Only (to_lower p) id s.sessions

delete_found-ok :
    (p id : Text) (found : List Session) (s : Store)
    → (delete_found p found s).1 ≡ ok id
    → (f : Session) × (found ≡ f ∷ [])
      × (f.id ≡ id)
      × ((sess : Session) × (lookup id s.sessions ≡ some sess))
unfolding delete_found
delete_found-ok p id [] s e = absurd (cc)
delete_found-ok p id (f ∷ g ∷ more) s e = absurd (cc)
delete_found-ok p id (f ∷ []) s e = elim (Option-cases (lookup f.id s.sessions)) [
  | inl gone ↦ absurd (cc)
  | inr (sess, there) ↦
      let same : f.id ≡ id = ground (arith, there) in
      (f, refl, same, (sess, subst (λ t. lookup t s.sessions ≡ some sess) same there))
]

delete_session-ok :
    (p id : Text) (s : Store) → IsValid s → (delete_session p s).1 ≡ ok id → IsNamedBy p id s
unfolding delete_session
delete_session-ok p id s v e =
    let lp = to_lower p in
    let (f, one, same, (sess, there)) = delete_found-ok p id (get_by_mask p s) s e in
    let found : matching lp s.sessions ≡ f ∷ [] = sym (get_by_mask-matching p s v) ∙ one in
    let key : to_lower f.id ≡ id = rw same (All-lookup id sess s.sessions v.entries there).2 in
    record {
      sess = sess;
      there = there;
      has = subst (λ t. has_prefix t lp ≡ true) key (matching-hit lp f s.sessions found);
      only = λ k w l q.
          let at_k : w.id ≡ k = (All-lookup k w s.sessions v.entries l).0 in
          let w_is_f : w ≡ f = matching-All lp k w f s.sessions v.entries found l q in
          sym at_k ∙ ap (λ (x : Session). x.id) w_is_f ∙ same;
    }

delete_session-named :
    (p id : Text) (s : Store) → IsValid s → IsNamedBy p id s → (delete_session p s).1 ≡ ok id
unfolding delete_session delete_found
delete_session-named p id s v n =
    let one : matching (to_lower p) s.sessions ≡ n.sess ∷ [] =
      matching-one (to_lower p) id n.sess s.sessions v.distinct v.entries n.only n.there n.has in
    let same : n.sess.id ≡ id = (All-lookup id n.sess s.sessions v.entries n.there).0 in
    let there' : lookup n.sess.id s.sessions ≡ some n.sess =
      subst (λ t. lookup t s.sessions ≡ some n.sess) (sym same) n.there in
    rw (get_by_mask-matching p s v, one) (rw (there', delete_found) (ap ok same))

-- In a valid store `Delete` of a prefix succeeds with an id exactly when that id is in the store, has
-- the prefix up to letter case, and is the only one there that has it, whatever order the map is
-- walked in.
pub delete_session_iff :
    (p id : Text) (s : Store) → IsValid s → ((delete_session p s).1 ≡ ok id) ↔ IsNamedBy p id s
delete_session_iff p id s v = (delete_session-ok p id s v, delete_session-named p id s v)

-- Two different sessions of a valid store with the prefix make it ambiguous: `Delete` then reports that
-- and changes nothing.
pub delete_session_ambiguous :
    (p j k : Text) (s : Store) (a b : Session)
    → IsValid s
    → lookup j s.sessions ≡ some a
    → lookup k s.sessions ≡ some b
    → j ≢ k
    → has_prefix j (to_lower p) ≡ true
    → has_prefix k (to_lower p) ≡ true
    → delete_session p s ≡ (s, err (multiple p))
unfolding delete_session
delete_session_ambiguous p j k s a b v la lb ne hj hk =
    rw (get_by_mask-matching p s v) (go (matching (to_lower p) s.sessions) refl)
  where
    go :
        (found : List Session)
        → matching (to_lower p) s.sessions ≡ found
        → delete_found p found s ≡ (s, err (multiple p))
    go [] e = absurd (matching-ne-nil (to_lower p) j a s.sessions v.entries la hj e)
    go (f ∷ g ∷ more) e = unfold delete_found in refl
    go (f ∷ []) e =
        let a_is_f : a ≡ f = matching-All (to_lower p) j a f s.sessions v.entries e la hj in
        let b_is_f : b ≡ f = matching-All (to_lower p) k b f s.sessions v.entries e lb hk in
        let at_j : a.id ≡ j = (All-lookup j a s.sessions v.entries la).0 in
        let at_k : b.id ≡ k = (All-lookup k b s.sessions v.entries lb).0 in
        absurd (ne (sym at_j ∙ ap (λ (x : Session). x.id) (a_is_f ∙ sym b_is_f) ∙ at_k))
