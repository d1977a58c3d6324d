-- ===== src/Semver/Grammar/Numbers.antt =====
-- The parts of a version that Parse of internal/semver/semver.go reads by strconv.Atoi.
use native.Mathlib.Nat.{pow-suc}
use locksmith.Common.{
  ℕ, suc, ◌+◌, ◌-◌, ◌*◌, ◌^◌, ◌<◌, ◌≡◌, ◌≢◌, ◌∙◌, refl, ap, sym, true, false, ◌||◌, List, [], ◌∷◌,
  inl, inr, some, ok, arith, ltb, ◌==◌, length, All, Bool-cases, Option-cases,
}
use locksmith.Common.Int.{ℤ, pos, ltb_ℤ}
use locksmith.Common.Text.{Text, is_empty, contains_byte}
use locksmith.Semver.{
  Version, is_digit, digits_from, parse_uint, int_limit, positive, atoi, set_part, parse_loop,
}

-- The number that a text of digits stands for, most significant digit first.
unfoldable pub value : Text → ℕ
value [] = 0
value (c ∷ cs) = (c - 48) * 10 ^ length cs + value cs

abbrev pub IsDigits : Text → Type 0
IsDigits = All (λ c. is_digit c ≡ true)

-- A component: one or more digits, leading zeros allowed, with a value that fits an int.
pub record IsNumber (p : Text) (n : ℤ) : Type 0 where
  pub some_digit : p ≢ []
  pub digits : IsDigits p
  pub fits : value p < int_limit
  pub is_value : n ≡ pos (value p)

pow_step : (k : ℕ) → 10 ^ suc k ≡ 10 * 10 ^ k
pow_step k = omega (arith, pow-suc 10 k)

digits_from-value :
    (acc : ℕ) (p : Text) → IsDigits p → digits_from acc p ≡ some (acc * 10 ^ length p + value p)
unfolding digits_from value
digits_from-value acc [] h = ap some (omega arith)
digits_from-value acc (c ∷ cs) h = rw h.0 (
    digits_from-value (acc * 10 + (c - 48)) cs h.1
    ∙ ap some (rw (pow_step (length cs)) (omega arith)))

digits_from-IsDigits : (acc n : ℕ) (p : Text) → digits_from acc p ≡ some n → IsDigits p
unfolding digits_from
digits_from-IsDigits acc n [] e = tt
digits_from-IsDigits acc n (c ∷ cs) e = elim (Bool-cases (is_digit c)) [
  | inl digit ↦ (digit, digits_from-IsDigits (acc * 10 + (c - 48)) n cs (rw digit at e))
  | inr other ↦ absurd (cc (rw other at e))
]

-- A text has no sign character: `Parse` has refused those before it splits.
abbrev pub Unsigned : Text → Type 0
Unsigned s = (contains_byte b'-' s || contains_byte b'+' s) ≡ false

pub atoi-IsNumber :
    (p : Text) → IsDigits p → p ≢ [] → value p < int_limit → atoi p ≡ some (pos (value p))
unfolding atoi parse_uint positive
atoi-IsNumber [] d ne fits = absurd (ne refl)
atoi-IsNumber (c ∷ cs) d ne fits =
    let m : (c == b'-') ≡ false = ground (arith, d.0) in
    let q : (c == b'+') ≡ false = ground (arith, d.0) in
    let v : digits_from 0 (c ∷ cs) ≡ some (value (c ∷ cs)) =
      digits_from-value 0 (c ∷ cs) d ∙ ap some (omega arith) in
    let t : ltb (value (c ∷ cs)) int_limit ≡ true = ground arith in rw (m, q, v, t)

pub atoi_sound : (p : Text) (n : ℤ) → Unsigned p → atoi p ≡ some n → IsNumber p n
unfolding atoi parse_uint positive contains_byte
atoi_sound [] n u e = absurd (cc)
atoi_sound (c ∷ cs) n u e =
    let m : (c == b'-') ≡ false = ground arith in
    let q : (c == b'+') ≡ false = ground arith in
    let e' : positive (digits_from 0 (c ∷ cs)) ≡ some n = rw (m, q) at e in
    elim (Option-cases (digits_from 0 (c ∷ cs))) [
      | inl none_left ↦ absurd (cc (rw none_left at e'))
      | inr (k, r) ↦
          let d : IsDigits (c ∷ cs) = digits_from-IsDigits 0 k (c ∷ cs) r in
          let v : digits_from 0 (c ∷ cs) ≡ some (value (c ∷ cs)) =
            digits_from-value 0 (c ∷ cs) d ∙ ap some (omega arith) in
          let e2 : positive (some (value (c ∷ cs))) ≡ some n = rw v at e' in
          elim (Bool-cases (ltb (value (c ∷ cs)) int_limit)) [
            | inr over ↦ absurd (cc (rw over at e2))
            | inl fits ↦
                let e3 : some (pos (value (c ∷ cs))) ≡ some n = rw fits at e2 in
                record { some_digit = λ x. cc; digits = d; fits = ground arith; is_value = cc }
          ]
    ]

pub loop_step :
    (s : Text) (i : ℕ) (p : Text) (ps : List Text) (out : Version) (n : ℤ)
    → IsNumber p n
    → parse_loop s i (p ∷ ps) out ≡ parse_loop s (i + 1) ps (set_part i n out)
unfolding parse_loop is_empty
loop_step s i [] ps out n h = absurd (h.some_digit refl)
loop_step s i (c ∷ cs) ps out n h =
    let a : atoi (c ∷ cs) ≡ some n =
      atoi-IsNumber (c ∷ cs) h.digits h.some_digit h.fits ∙ ap some (sym h.is_value) in
    let t : ltb_ℤ n (pos 0) ≡ false = rw h.is_value (ground arith) in
    rw (a, parse_loop) (rw (t, parse_loop))

pub loop_back :
    (s : Text) (i : ℕ) (p : Text) (ps : List Text) (out v : Version)
    → Unsigned p
    → parse_loop s i (p ∷ ps) out ≡ ok v
    → (n : ℤ) × IsNumber p n × (parse_loop s (i + 1) ps (set_part i n out) ≡ ok v)
unfolding parse_loop is_empty
loop_back s i [] ps out v u e = absurd (cc)
loop_back s i (c ∷ cs) ps out v u e = elim (Option-cases (atoi (c ∷ cs))) [
  | inl bad ↦ absurd (cc (rw (bad, parse_loop) at e))
  | inr (n, good) ↦
      let e' = rw (good, parse_loop) at e in
      let h : IsNumber (c ∷ cs) n = atoi_sound (c ∷ cs) n u good in
      (n, h, sym (loop_step s i (c ∷ cs) ps out n h) ∙ e)
]

pub digits-contains_byte :
    (b : ℕ) (p : Text) → is_digit b ≡ false → IsDigits p → contains_byte b p ≡ false
unfolding contains_byte
digits-contains_byte b [] nd d = refl
digits-contains_byte b (c ∷ cs) nd d = ground (arith, digits-contains_byte b cs nd d.1)
