-- ===== src/Common/Words.antt =====
-- strings.TrimSpace and strings.Fields of the Go standard library.
use mathlib.Core.List.{reverse-cons, reverse-append}
use locksmith.Common.{
  ℕ, ◌≡◌, ◌∙◌, ap, inl, inr, Bool, true, false, ◌&&◌, if◌then◌else◌, List, [], ◌∷◌, ◌++◌, reverse,
  Bool-cases,
}
use locksmith.Common.Text.{Text, is_empty, is_space}

unfoldable pub trim_left : Text → Text
trim_left [] = []
trim_left (c ∷ s) = elim (is_space c) [ true ↦ trim_left s | false ↦ c ∷ s ]

-- strings.TrimSpace(s)
unfoldable pub trim_space : Text → Text
trim_space s = reverse (trim_left (reverse (trim_left s)))

-- The words of a text of which `word` has been read already.
unfoldable pub fields_from : Text → Text → List Text
fields_from word [] = elim (is_empty word) [ true ↦ [] | false ↦ word ∷ [] ]
fields_from word (c ∷ s) = elim (is_space c) [
  | true ↦ elim (is_empty word) [ true ↦ fields_from [] s | false ↦ word ∷ fields_from [] s ]
  | false ↦ fields_from (word ++ (c ∷ [])) s
]

-- strings.Fields(s)
unfoldable pub fields : Text → List Text
fields s = fields_from [] s

trim_left-snoc :
    (s : Text) (c : ℕ)
    → is_space c ≡ false
    → (t : Text) × (trim_left (s ++ (c ∷ [])) ≡ t ++ (c ∷ []))
unfolding trim_left
trim_left-snoc [] c h = ([], rw (h, trim_left))
trim_left-snoc (x ∷ s) c h = elim (Bool-cases (is_space x)) [
  | inl blank ↦ let (t, e) = trim_left-snoc s c h in (t, rw (blank, trim_left) e)
  | inr other ↦ (x ∷ s, rw (other, trim_left))
]

-- A text that begins with a byte that is no space keeps that byte.
pub trim_space-head :
    (c : ℕ) (s : Text) → is_space c ≡ false → (t : Text) × (trim_space (c ∷ s) ≡ c ∷ t)
unfolding trim_space
trim_space-head c s h =
    let (t, e) = trim_left-snoc (reverse s) c h in
    let left : trim_left (c ∷ s) ≡ c ∷ s = unfold trim_left in rw (h, trim_left) in
    (
      reverse t,
      rw left (
          ap (λ x. reverse (trim_left x)) (reverse-cons c s)
          ∙ ap (λ x. reverse x) e
          ∙ reverse-append t (c ∷ [])),
    )

-- strings.TrimRight(s, cutset), with the cutset as a test.
unfoldable pub trim_right : (ℕ → Bool) → Text → Text
trim_right cutset [] = []
trim_right cutset (c ∷ s) =
    let rest = trim_right cutset s in if is_empty rest && cutset c then [] else c ∷ rest
