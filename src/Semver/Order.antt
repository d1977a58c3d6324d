-- ===== src/Semver/Order.antt =====
-- Versions are totally ordered, major first, then minor, then patch.
use locksmith.Common.{◌+◌, ◌≡◌, ◌∙◌, sym, subst, ◌⊎◌, inl, inr, ◌↔◌, true, arith}
use locksmith.Common.Int.{ℤ, pos, pos_part, neg_part, ltb_ℤ, ◌<ℤ◌}
use locksmith.Semver.{Version, compare, less_or_equal, greater_or_equal, minus_one}

abbrev pub Before : Version → Version → Type 0
Before a b =
    (a.major <ℤ b.major)
    ⊎ ((a.major ≡ b.major) × ((a.minor <ℤ b.minor) ⊎ ((a.minor ≡ b.minor) × (a.patch <ℤ b.patch))))

eq_of_parts : (a b : ℤ) → pos_part a + neg_part b ≡ pos_part b + neg_part a → a ≡ b
eq_of_parts a b h = ground arith

compare-Before : (a b : Version) → Before a b → compare a b ≡ minus_one
unfolding compare
compare-Before a b h = ground arith

Before-compare : (a b : Version) → compare a b ≡ minus_one → Before a b
unfolding compare
Before-compare a b h = ground (arith, eq_of_parts a.major b.major, eq_of_parts a.minor b.minor)

compare-eq : (a b : Version) → (compare a b ≡ pos 0) → a ≡ b
unfolding compare
compare-eq a b h =
    ground
      (arith, eq_of_parts a.major b.major, eq_of_parts a.minor b.minor, eq_of_parts a.patch b.patch)

compare_refl : (a : Version) → compare a a ≡ pos 0
unfolding compare
compare_refl a = ground arith

compare-After : (a b : Version) → Before b a → compare a b ≡ pos 1
unfolding compare
compare-After a b h = ground arith

After-compare : (a b : Version) → compare a b ≡ pos 1 → Before b a
unfolding compare
After-compare a b h = ground (arith, eq_of_parts b.major a.major, eq_of_parts b.minor a.minor)

-- `Compare` answers -1, 0 or 1 exactly when the first version comes before the second, is it, or comes
-- after it, in the order by major, then minor, then patch number.
pub compare_iff :
    (a b : Version)
    → ((compare a b ≡ minus_one) ↔ Before a b)
      × ((compare a b ≡ pos 0) ↔ (a ≡ b))
      × ((compare a b ≡ pos 1) ↔ Before b a)
compare_iff a b = (
  (Before-compare a b, compare-Before a b),
  (compare-eq a b, λ e. subst (λ x. compare a x ≡ pos 0) e (compare_refl a)),
  (After-compare a b, compare-After a b),
)

compare-cases :
    (a b : Version) → (compare a b ≡ minus_one) ⊎ ((compare a b ≡ pos 0) ⊎ (compare a b ≡ pos 1))
unfolding compare
compare-cases a b = ground arith

Before-trans : (a b c : Version) → Before a b → Before b c → Before a c
Before-trans a b c (inl h) (inl k) = inl (omega arith)
Before-trans a b c (inl h) (inr (e, k)) = inl (subst (λ x. a.major <ℤ x) e h)
Before-trans a b c (inr (e, h)) (inl k) = inl (subst (λ x. x <ℤ c.major) (sym e) k)
Before-trans a b c (inr (e, h)) (inr (f, k)) = inr (e ∙ f, minor h k)
  where
    minor :
        (a.minor <ℤ b.minor) ⊎ ((a.minor ≡ b.minor) × (a.patch <ℤ b.patch))
        → (b.minor <ℤ c.minor) ⊎ ((b.minor ≡ c.minor) × (b.patch <ℤ c.patch))
        → (a.minor <ℤ c.minor) ⊎ ((a.minor ≡ c.minor) × (a.patch <ℤ c.patch))
    minor (inl h) (inl k) = inl (omega arith)
    minor (inl h) (inr (e, k)) = inl (subst (λ x. a.minor <ℤ x) e h)
    minor (inr (e, h)) (inl k) = inl (subst (λ x. x <ℤ c.minor) (sym e) k)
    minor (inr (e, h)) (inr (f, k)) = inr (e ∙ f, omega arith)

leq_cases : (a b : Version) → less_or_equal a b ≡ true → Before a b ⊎ (a ≡ b)
unfolding less_or_equal
leq_cases a b h = elim (compare-cases a b) [
  | inl e ↦ inl (Before-compare a b e)
  | inr r ↦ elim r [ inl e ↦ inr (compare-eq a b e) | inr e ↦ absurd (cc (rw e at h)) ]
]

leq_of_Before : (a b : Version) → Before a b → less_or_equal a b ≡ true
unfolding less_or_equal
leq_of_Before a b h = rw (compare-Before a b h)

leq_trans_cases :
    (a b c : Version)
    → Before a b ⊎ (a ≡ b)
    → Before b c ⊎ (b ≡ c)
    → less_or_equal b c ≡ true
    → less_or_equal a b ≡ true
    → less_or_equal a c ≡ true
leq_trans_cases a b c (inl h) (inl k) hk hh = leq_of_Before a c (Before-trans a b c h k)
leq_trans_cases a b c (inr e) k hk hh = subst (λ x. less_or_equal x c ≡ true) (sym e) hk
leq_trans_cases a b c (inl h) (inr e) hk hh = subst (λ x. less_or_equal a x ≡ true) e hh

leq_antisym_cases : (a b : Version) → Before a b ⊎ (a ≡ b) → less_or_equal b a ≡ true → a ≡ b
unfolding less_or_equal
leq_antisym_cases a b (inr e) k = e
leq_antisym_cases a b (inl h) k = absurd (cc (rw (compare-After b a h) at k))

-- `LessOrEqual` is a total order on versions, and `GreaterOrEqual` is its converse.
pub less_or_equal_order :
    ((a : Version) → less_or_equal a a ≡ true)
    × ((a b c : Version)
        → less_or_equal a b ≡ true
        → less_or_equal b c ≡ true
        → less_or_equal a c ≡ true)
    × ((a b : Version) → less_or_equal a b ≡ true → less_or_equal b a ≡ true → a ≡ b)
    × ((a b : Version) → (less_or_equal a b ≡ true) ⊎ (less_or_equal b a ≡ true))
    × ((a b : Version) → greater_or_equal a b ≡ less_or_equal b a)
unfolding less_or_equal greater_or_equal
less_or_equal_order = (
  λ a. rw (compare_refl a),
  λ a b c h k. leq_trans_cases a b c (leq_cases a b h) (leq_cases b c k) k h,
  λ a b h k. leq_antisym_cases a b (leq_cases a b h) k,
  λ a b. total a b (compare-cases a b),
  λ a b. converse a b (compare-cases a b),
)
  where
    compare-eq-sym : (a b : Version) → compare a b ≡ pos 0 → compare b a ≡ pos 0
    compare-eq-sym a b e = subst (λ x. compare x a ≡ pos 0) (compare-eq a b e) (compare_refl a)

    total :
        (a b : Version)
        → (compare a b ≡ minus_one) ⊎ ((compare a b ≡ pos 0) ⊎ (compare a b ≡ pos 1))
        → (less_or_equal a b ≡ true) ⊎ (less_or_equal b a ≡ true)
    total a b (inl e) = inl (rw e)
    total a b (inr (inl e)) = inl (rw e)
    total a b (inr (inr e)) = inr (rw (compare-Before b a (After-compare a b e)))

    converse :
        (a b : Version)
        → (compare a b ≡ minus_one) ⊎ ((compare a b ≡ pos 0) ⊎ (compare a b ≡ pos 1))
        → greater_or_equal a b ≡ less_or_equal b a
    converse a b (inl e) = rw (e, compare-After b a (Before-compare a b e))
    converse a b (inr (inl e)) = rw (e, compare-eq-sym a b e)
    converse a b (inr (inr e)) = rw (e, compare-Before b a (After-compare a b e))

-- The tests `a.Compare(b) < 0` and `a.Compare(b) > 0`.
pub compare_early_iff : (a b : Version) → (ltb_ℤ (compare a b) (pos 0) ≡ true) ↔ Before a b
compare_early_iff a b = (
  λ h. elim (compare-cases a b) [
    | inl e ↦ Before-compare a b e
    | inr r ↦ elim r [ inl e ↦ absurd (cc (rw e at h)) | inr e ↦ absurd (cc (rw e at h)) ]
  ],
  λ h. rw (compare-Before a b h),
)

pub compare_late_iff : (a b : Version) → (ltb_ℤ (pos 0) (compare a b) ≡ true) ↔ Before b a
compare_late_iff a b = (
  λ h. elim (compare-cases a b) [
    | inl e ↦ absurd (cc (rw e at h))
    | inr r ↦ elim r [ inl e ↦ absurd (cc (rw e at h)) | inr e ↦ After-compare a b e ]
  ],
  λ h. rw (compare-After a b h),
)
