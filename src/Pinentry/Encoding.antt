-- ===== src/Pinentry/Encoding.antt =====
-- The percent encoding of internal/pinentry/assuan.go.
use locksmith.Common.{
  ℕ, ◌/◌, ◌%◌, ◌≡◌, ◌≢◌, refl, sym, subst, ◌⊎◌, true, false, [], ◌∷◌, inl, inr, none, some, arith,
  ◌==◌, All, Bool-cases,
}
use locksmith.Common.Text.{Text}
use locksmith.Pinentry.{hex_val, is_special, upper_hex, encode_assuan, escape, decode_percent}

escape-plain : (c h l : ℕ) → (c == b'%') ≡ false → escape c h l ≡ none
unfolding escape
escape-plain c h l e = rw e

decode-plain :
    (c : ℕ) (s : Text) → (c == b'%') ≡ false → decode_percent (c ∷ s) ≡ c ∷ decode_percent s
unfolding decode_percent
decode-plain c [] e = refl
decode-plain c (d ∷ []) e = refl
decode-plain c (d ∷ x ∷ s) e = rw (escape-plain c d x e, decode_percent)

special_cases : (c : ℕ) → is_special c ≡ true → (c ≡ b'%') ⊎ ((c ≡ 13) ⊎ ((c ≡ 10) ⊎ (c ≡ 0)))
unfolding is_special
special_cases c e = ground arith

abbrev Escapes : ℕ → Type 0
Escapes x = escape b'%' (upper_hex (x / 16)) (upper_hex (x % 16)) ≡ some x

escape-special :
    (c : ℕ) → is_special c ≡ true → escape b'%' (upper_hex (c / 16)) (upper_hex (c % 16)) ≡ some c
escape-special c e = elim (special_cases c e) [
  | inl percent ↦ subst Escapes (sym percent) (unfold escape upper_hex hex_val in refl)
  | inr (inl cr) ↦ subst Escapes (sym cr) (unfold escape upper_hex hex_val in refl)
  | inr (inr (inl lf)) ↦ subst Escapes (sym lf) (unfold escape upper_hex hex_val in refl)
  | inr (inr (inr nul)) ↦ subst Escapes (sym nul) (unfold escape upper_hex hex_val in refl)
]

decode-special :
    (c : ℕ) (s : Text)
    → is_special c ≡ true
    → decode_percent (b'%' ∷ upper_hex (c / 16) ∷ upper_hex (c % 16) ∷ s) ≡ c ∷ decode_percent s
unfolding decode_percent
decode-special c s e = rw (escape-special c e, decode_percent)

not_percent : (c : ℕ) → is_special c ≡ false → (c == b'%') ≡ false
unfolding is_special
not_percent c e = ground arith

-- Decoding what has been encoded gives the text back, whatever it is.
pub decode_percent-encode_assuan : (s : Text) → decode_percent (encode_assuan s) ≡ s
unfolding encode_assuan
decode_percent-encode_assuan [] = unfold decode_percent in refl
decode_percent-encode_assuan (c ∷ s) = elim (Bool-cases (is_special c)) [
  | inl special ↦
      rw special
        (rw (decode-special c (encode_assuan s) special) (rw (decode_percent-encode_assuan s)))
  | inr plain ↦ rw plain (
      rw (decode-plain c (encode_assuan s) (not_percent c plain))
        (rw (decode_percent-encode_assuan s)))
]

-- No carriage return, line feed or NUL.
abbrev pub IsLine : Text → Type 0
IsLine = All (λ c. (c ≢ 13) × ((c ≢ 10) × (c ≢ 0)))

plain-lem : (c : ℕ) → is_special c ≡ false → (c ≢ 13) × ((c ≢ 10) × (c ≢ 0))
unfolding is_special
plain-lem c e = (λ x. ground arith, (λ x. ground arith, λ x. ground arith))

upper_hex-lem : (n : ℕ) → (upper_hex n ≢ 13) × ((upper_hex n ≢ 10) × (upper_hex n ≢ 0))
unfolding upper_hex
upper_hex-lem n = (λ x. ground arith, (λ x. ground arith, λ x. ground arith))

pub encode_assuan-IsLine : (s : Text) → IsLine (encode_assuan s)
unfolding encode_assuan
encode_assuan-IsLine [] = tt
encode_assuan-IsLine (c ∷ s) = elim (Bool-cases (is_special c)) [
  | inl special ↦ rw special (
    (λ x. ground arith, (λ x. ground arith, λ x. ground arith)),
    (upper_hex-lem (c / 16), (upper_hex-lem (c % 16), encode_assuan-IsLine s)),
  )
  | inr plain ↦ rw plain (plain-lem c plain, encode_assuan-IsLine s)
]
