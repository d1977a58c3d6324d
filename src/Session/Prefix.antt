-- ===== src/Session/Prefix.antt =====
-- Sessions named by a prefix of their id: getByMask and Delete of internal/session/session.go.
use locksmith.Common.{
  ◌≡◌, ◌∙◌, refl, ap, sym, subst, true, List, [], ◌∷◌, inl, inr, arith, ◌==◌, ==_iff, if◌then◌else◌,
  length, All, Bool-cases,
}
use locksmith.Common.Text.{Text, text_eq_iff, has_prefix, to_lower}
use locksmith.Common.Assoc.{Map, DistinctKeys, HasNoKey}
use locksmith.Session.{Session, Store, mask_loop, get_by_mask}
use locksmith.Session.Valid.{IsEntry, IsValid}

-- Every session whose id has the prefix, with no early exit.
unfoldable pub matching : Text → Map Session → List Session
matching prefix [] = []
matching prefix ((k, sess) ∷ rest) =
    if has_prefix (to_lower sess.id) prefix
    then sess ∷ matching prefix rest
    else matching prefix rest

has_prefix_whole : (s p : Text) → has_prefix s p ≡ true → length s ≡ length p → s ≡ p
unfolding has_prefix
has_prefix_whole [] [] h e = refl
has_prefix_whole [] (d ∷ p) h e = absurd (cc)
has_prefix_whole (c ∷ s) [] h e = absurd (omega arith)
has_prefix_whole (c ∷ s) (d ∷ p) h e = ground (arith, has_prefix_whole s p)

-- The lower-cased id of an entry is its key.
pub entry_key : (k : Text) (sess : Session) → IsEntry (k, sess) → to_lower sess.id ≡ k
entry_key k sess h = ap to_lower h.0 ∙ h.2

no_more :
    (p : Text) (m : Map Session) → length p ≡ 67 → HasNoKey p m → All IsEntry m → matching p m ≡ []
unfolding matching
no_more p [] l d h = refl
no_more p ((k, sess) ∷ m) l d h = elim (Bool-cases (has_prefix (to_lower sess.id) p)) [
  | inr other ↦ rw other (no_more p m l d.1 h.1)
  | inl same ↦
      let e : k ≡ p = has_prefix_whole k p (rw (entry_key k sess h.0) at same) (h.0.1 ∙ sym l) in
      absurd (ground (arith, text_eq_iff k p, d.0))
]

mask_loop-matching :
    (p : Text) (m : Map Session) → DistinctKeys m → All IsEntry m → mask_loop p m ≡ matching p m
unfolding mask_loop matching
mask_loop-matching p [] d h = refl
mask_loop-matching p ((k, sess) ∷ m) d h = elim (Bool-cases (has_prefix (to_lower sess.id) p)) [
  | inr other ↦ rw other (mask_loop-matching p m d.1 h.1)
  | inl same ↦ elim (Bool-cases (length (to_lower sess.id) == length p)) [
    | inr longer ↦ rw (same, longer) (ap (◌∷◌ sess) (mask_loop-matching p m d.1 h.1))
    | inl whole ↦
        let e : to_lower sess.id ≡ p =
          has_prefix_whole (to_lower sess.id) p same ((==_iff _ _).0 whole) in
        let ek : k ≡ p = sym (entry_key k sess h.0) ∙ e in
        rw (same, whole)
          (ap (◌∷◌ sess)
            (sym (no_more p m (ap length (sym ek) ∙ h.0.1) (subst (λ t. HasNoKey t m) ek d.0) h.1)))
  ]
]

-- Under the store's invariant the early exit of `getByMask` loses nothing: it returns exactly the
-- sessions whose lower-cased id has the lower-cased prefix.
pub get_by_mask-matching :
    (p : Text) (s : Store) → IsValid s → get_by_mask p s ≡ matching (to_lower p) s.sessions
unfolding get_by_mask
get_by_mask-matching p s v = mask_loop-matching (to_lower p) s.sessions v.distinct v.entries

-- No session of the map but `id` has the prefix.
