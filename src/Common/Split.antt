-- ===== src/Common/Split.antt =====
-- strings.Split and strings.Join by one byte, and strings.Cut, with the laws between them.
use mathlib.Core.List.{append_assoc}
use locksmith.Common.{
  ℕ, ◌≡◌, ◌∙◌, refl, ap, sym, Bool, true, false, ◌||◌, List, [], ◌∷◌, ◌++◌, ◌⊎◌, inl, inr, arith,
  ◌==◌, ==_iff, if◌then◌else◌, Bool-cases, All,
}
use locksmith.Common.Text.{Text, contains_byte}

abbrev pub cons_head : ℕ → List Text → List Text
cons_head c [] = (c ∷ []) ∷ []
cons_head c (p ∷ ps) = (c ∷ p) ∷ ps

-- strings.Split(s, sep): never the empty list.
unfoldable pub split_on : ℕ → Text → List Text
split_on sep [] = [] ∷ []
split_on sep (c ∷ cs) =
    let rest = split_on sep cs in if c == sep then [] ∷ rest else cons_head c rest

-- strings.Join(parts, sep).
unfoldable pub join_with : ℕ → List Text → Text
join_with sep [] = []
join_with sep (p ∷ []) = p
join_with sep (p ∷ q ∷ ps) = p ++ (sep ∷ join_with sep (q ∷ ps))

-- strings.Cut(s, sep): before, after and whether it was found.
unfoldable pub cut : ℕ → Text → Text × Text × Bool
cut sep [] = ([], [], false)
cut sep (c ∷ cs) =
    let (before, after, found) = cut sep cs in
    if c == sep then ([], cs, true) else (c ∷ before, after, found)

pub split_on_ne : (sep : ℕ) (s : Text) → (p : Text) × (ps : List Text) × (split_on sep s ≡ p ∷ ps)
unfolding split_on
split_on_ne sep [] = ([], [], refl)
split_on_ne sep (c ∷ cs) =
    let (p, ps, e) = split_on_ne sep cs in
    elim (Bool-cases (c == sep)) [
      | inl hit ↦ ([], split_on sep cs, rw hit)
      | inr miss ↦ (c ∷ p, ps, rw miss (rw e))
    ]

join-nil :
    (sep : ℕ) (p : Text) (ps : List Text)
    → join_with sep ([] ∷ p ∷ ps) ≡ sep ∷ join_with sep (p ∷ ps)
unfolding join_with
join-nil sep p ps = refl

join-cons_head :
    (sep c : ℕ) (p : Text) (ps : List Text)
    → join_with sep ((c ∷ p) ∷ ps) ≡ c ∷ join_with sep (p ∷ ps)
unfolding join_with
join-cons_head sep c p [] = refl
join-cons_head sep c p (q ∷ ps) = refl

-- Joining the pieces gives the text back.
pub join-split_on : (sep : ℕ) (s : Text) → join_with sep (split_on sep s) ≡ s
unfolding split_on
join-split_on sep [] = unfold join_with in refl
join-split_on sep (c ∷ cs) =
    let (p, ps, e) = split_on_ne sep cs in
    let ih : join_with sep (p ∷ ps) ≡ cs = ap (join_with sep) (sym e) ∙ join-split_on sep cs in
    elim (Bool-cases (c == sep)) [
      | inl hit ↦ rw (hit, e) (join-nil sep p ps ∙ rw ih (rw ((==_iff c sep).0 hit)))
      | inr miss ↦ rw (miss, e) (join-cons_head sep c p ps ∙ rw ih)
    ]

-- A piece with no separator in it comes off whole.
pub split_on-append :
    (sep : ℕ) (p s : Text)
    → contains_byte sep p ≡ false
    → split_on sep (p ++ (sep ∷ s)) ≡ p ∷ split_on sep s
unfolding split_on contains_byte
split_on-append sep [] s h = rw ((==_iff sep sep).1 refl)
split_on-append sep (c ∷ p) s h = elim (Bool-cases (c == sep)) [
  | inl hit ↦ absurd (cc (rw hit at h))
  | inr miss ↦ rw (miss, split_on-append sep p s (rw miss at h))
]

pub split_on-whole : (sep : ℕ) (p : Text) → contains_byte sep p ≡ false → split_on sep p ≡ p ∷ []
unfolding split_on contains_byte
split_on-whole sep [] h = refl
split_on-whole sep (c ∷ p) h = elim (Bool-cases (c == sep)) [
  | inl hit ↦ absurd (cc (rw hit at h))
  | inr miss ↦ rw (miss, split_on-whole sep p (rw miss at h))
]

pub contains_byte-append :
    (b : ℕ) (s t : Text) → contains_byte b (s ++ t) ≡ (contains_byte b s || contains_byte b t)
unfolding contains_byte
contains_byte-append b [] t = refl
contains_byte-append b (c ∷ s) t = ground (arith, contains_byte-append b s t)

pub cut-append :
    (sep : ℕ) (p s : Text) → contains_byte sep p ≡ false → cut sep (p ++ (sep ∷ s)) ≡ (p, s, true)
unfolding cut contains_byte
cut-append sep [] s h = rw ((==_iff sep sep).1 refl)
cut-append sep (c ∷ p) s h = elim (Bool-cases (c == sep)) [
  | inl hit ↦ absurd (cc (rw hit at h))
  | inr miss ↦ rw (miss, cut-append sep p s (rw miss at h))
]

pub cut-whole : (sep : ℕ) (p : Text) → contains_byte sep p ≡ false → cut sep p ≡ (p, [], false)
unfolding cut contains_byte
cut-whole sep [] h = refl
cut-whole sep (c ∷ p) h = elim (Bool-cases (c == sep)) [
  | inl hit ↦ absurd (cc (rw hit at h))
  | inr miss ↦ rw (miss, cut-whole sep p (rw miss at h))
]

-- A text has no separator, or is split at its first one.
pub contains_byte-cases :
    (sep : ℕ) (s : Text)
    → (contains_byte sep s ≡ false)
      ⊎ ((p : Text) × (q : Text) × (contains_byte sep p ≡ false) × (s ≡ p ++ (sep ∷ q)))
unfolding contains_byte
contains_byte-cases sep [] = inl refl
contains_byte-cases sep (c ∷ s) = elim (Bool-cases (c == sep)) [
  | inl hit ↦ inr ([], s, refl, ap (λ x. x ∷ s) ((==_iff c sep).0 hit))
  | inr miss ↦ elim (contains_byte-cases sep s) [
    | inl nowhere ↦ inl (rw (miss, nowhere))
    | inr (p, q, clear, e) ↦ inr (c ∷ p, q, rw (miss, clear), ap (λ x. c ∷ x) e)
  ]
]

cons_head-clear :
    (sep c : ℕ) (ps : List Text)
    → (c == sep) ≡ false
    → All (λ p. contains_byte sep p ≡ false) ps
    → All (λ p. contains_byte sep p ≡ false) (cons_head c ps)
unfolding contains_byte
cons_head-clear sep c [] miss h = (rw miss refl, tt)
cons_head-clear sep c (p ∷ ps) miss h = (rw miss h.0, h.1)

-- No piece has the separator in it.
pub split_on-clear : (sep : ℕ) (s : Text) → All (λ p. contains_byte sep p ≡ false) (split_on sep s)
unfolding split_on
split_on-clear sep [] = (unfold contains_byte in refl, tt)
split_on-clear sep (c ∷ cs) = elim (Bool-cases (c == sep)) [
  | inl hit ↦ rw hit (unfold contains_byte in refl, split_on-clear sep cs)
  | inr miss ↦ rw miss (cons_head-clear sep c (split_on sep cs) miss (split_on-clear sep cs))
]

join-more :
    (sep : ℕ) (p : Text) (lines : List Text) (last : Text)
    → join_with sep (p ∷ (lines ++ (last ∷ []))) ≡ p ++ (sep ∷ join_with sep (lines ++ (last ∷ [])))
unfolding join_with
join-more sep p [] last = refl
join-more sep p (q ∷ lines) last = refl

-- Splitting lines that have been joined and ended by a separator gives them back, and an empty one.
pub split_on-join_with :
    (sep : ℕ) (lines : List Text) (last : Text)
    → All (λ p. contains_byte sep p ≡ false) lines
    → contains_byte sep last ≡ false
    → split_on sep (join_with sep (lines ++ (last ∷ [])) ++ (sep ∷ [])) ≡ lines ++ (last ∷ [] ∷ [])
split_on-join_with sep [] last h hl =
    unfold join_with in split_on-append sep last [] hl ∙ (unfold split_on in refl)
split_on-join_with sep (p ∷ lines) last h hl =
    ap (λ x. split_on sep (x ++ (sep ∷ []))) (join-more sep p lines last)
    ∙ ap (split_on sep) (append_assoc p (sep ∷ join_with sep (lines ++ (last ∷ []))) (sep ∷ []))
    ∙ split_on-append sep p (join_with sep (lines ++ (last ∷ [])) ++ (sep ∷ [])) h.0
    ∙ ap (λ x. p ∷ x) (split_on-join_with sep lines last h.1 hl)
