-- ===== src/Semver/Grammar.antt =====
-- Which texts `Parse` of internal/semver/semver.go accepts, and what it makes of them.
pub mod Numbers
use native.Mathlib.Nat.{pow-suc}
use locksmith.Common.{
  ℕ, suc, ◌+◌, ◌-◌, ◌*◌, ◌^◌, ◌<◌, ◌≡◌, ◌≢◌, ◌∙◌, refl, ap, sym, subst, ◌↔◌, true, false, ◌||◌,
  List, [], ◌∷◌, ◌++◌, inl, inr, some, Result, ok, arith, ltb, ◌==◌, length, All, Bool-cases,
  Option-cases,
}
use locksmith.Common.Int.{ℤ, pos, ltb_ℤ}
use locksmith.Common.Text.{Text, is_empty, contains_byte}
use locksmith.Common.Split.{
  split_on, join_with, join-split_on, split_on-append, split_on-whole, contains_byte-append,
}
use locksmith.Semver.{
  Version, Error, is_digit, digits_from, parse_uint, int_limit, positive, atoi, set_part,
  parse_loop, zero_version, parse,
}
use locksmith.Semver.Grammar.Numbers.{
  value, IsDigits, IsNumber, Unsigned, atoi-IsNumber, atoi_sound, loop_step, loop_back,
  digits-contains_byte,
}

-- The text is three numbers with dots between them.
pub record IsTriple (s : Text) (v : Version) : Type 0 where
  pub p0 : Text
  pub p1 : Text
  pub p2 : Text
  pub shape : s ≡ p0 ++ (b'.' ∷ (p1 ++ (b'.' ∷ p2)))
  pub is_major : IsNumber p0 v.major
  pub is_minor : IsNumber p1 v.minor
  pub is_patch : IsNumber p2 v.patch

triple_split :
    (s : Text) (v : Version) (t : IsTriple s v) → split_on b'.' s ≡ t.p0 ∷ t.p1 ∷ t.p2 ∷ []
triple_split s v t = rw t.shape (
    split_on-append b'.' t.p0 (t.p1 ++ (b'.' ∷ t.p2))
      (digits-contains_byte b'.' t.p0 refl t.is_major.digits)
    ∙ rw (split_on-append b'.' t.p1 t.p2 (digits-contains_byte b'.' t.p1 refl t.is_minor.digits))
        (rw (split_on-whole b'.' t.p2 (digits-contains_byte b'.' t.p2 refl t.is_patch.digits))))

triple_no :
    (b : ℕ) (s : Text) (v : Version)
    → is_digit b ≡ false
    → (b'.' == b) ≡ false
    → IsTriple s v
    → contains_byte b s ≡ false
unfolding contains_byte
triple_no b s v nd nb t = rw t.shape (
    rw (
      contains_byte-append b t.p0 (b'.' ∷ (t.p1 ++ (b'.' ∷ t.p2))),
      contains_byte-append b t.p1 (b'.' ∷ t.p2),
      nb,
      digits-contains_byte b t.p0 nd t.is_major.digits,
      digits-contains_byte b t.p1 nd t.is_minor.digits,
      digits-contains_byte b t.p2 nd t.is_patch.digits,
    ))

append-ne-nil : (p q : Text) → p ≢ [] → p ++ q ≢ []
append-ne-nil [] q ne e = ne refl
append-ne-nil (c ∷ p) q ne e = cc

not_empty : (s : Text) → s ≢ [] → is_empty s ≡ false
unfolding is_empty
not_empty [] ne = absurd (ne refl)
not_empty (c ∷ s) ne = refl

parse_complete : (s : Text) (v : Version) → IsTriple s v → parse s ≡ ok v
unfolding parse
parse_complete s v t =
    let ne : is_empty s ≡ false =
      not_empty s (rw t.shape (append-ne-nil t.p0 _ t.is_major.some_digit)) in
    let no_minus : contains_byte b'-' s ≡ false = triple_no b'-' s v refl refl t in
    let no_plus : contains_byte b'+' s ≡ false = triple_no b'+' s v refl refl t in
    rw (ne, no_minus, no_plus, triple_split s v t)
      (loop_step s 0 t.p0 (t.p1 ∷ t.p2 ∷ []) zero_version v.major t.is_major
        ∙ loop_step s 1 t.p1 (t.p2 ∷ []) _ v.minor t.is_minor
        ∙ loop_step s 2 t.p2 [] _ v.patch t.is_patch
        ∙ (unfold parse_loop set_part in refl))

triple_Unsigned :
    (s p0 p1 p2 : Text)
    → s ≡ p0 ++ (b'.' ∷ (p1 ++ (b'.' ∷ p2)))
    → Unsigned s
    → Unsigned p0 × Unsigned p1 × Unsigned p2
unfolding contains_byte
triple_Unsigned s p0 p1 p2 e u =
    let q = p1 ++ (b'.' ∷ p2) in
    ground (
      arith,
      ap (contains_byte b'-') e,
      ap (contains_byte b'+') e,
      contains_byte-append b'-' p0 (b'.' ∷ q),
      contains_byte-append b'+' p0 (b'.' ∷ q),
      contains_byte-append b'-' p1 (b'.' ∷ p2),
      contains_byte-append b'+' p1 (b'.' ∷ p2),
    )

parts_sound :
    (s : Text) (parts : List Text) (v : Version)
    → split_on b'.' s ≡ parts
    → Unsigned s
    → (length parts == 3) ≡ true
    → parse_loop s 0 parts zero_version ≡ ok v
    → IsTriple s v
parts_sound s [] v e u l h = absurd (ground arith)
parts_sound s (a ∷ []) v e u l h = absurd (ground arith)
parts_sound s (a ∷ b ∷ []) v e u l h = absurd (ground arith)
parts_sound s (a ∷ b ∷ c ∷ d ∷ rest) v e u l h = absurd (ground arith)
parts_sound s (a ∷ b ∷ c ∷ []) v e u l h =
    let shape : s ≡ a ++ (b'.' ∷ (b ++ (b'.' ∷ c))) =
      sym (join-split_on b'.' s) ∙ ap (join_with b'.') e ∙ (unfold join_with in refl) in
    let (ua, ub, uc) = triple_Unsigned s a b c shape u in
    let (n0, h0, e0) = loop_back s 0 a (b ∷ c ∷ []) zero_version v ua h in
    let (n1, h1, e1) = loop_back s 1 b (c ∷ []) _ v ub e0 in
    let (n2, h2, e2) = loop_back s 2 c [] _ v uc e1 in
    let made : Version = record { major = n0; minor = n1; patch = n2 } in
    let e3 : made ≡ v = ok_eq made v (unfold parse_loop set_part in e2) in
    subst (λ x. IsTriple s x) e3
      (record {
        p0 = a;
        p1 = b;
        p2 = c;
        shape = shape;
        is_major = h0;
        is_minor = h1;
        is_patch = h2;
      })
  where
    ok_eq : (x y : Version) → ◌≡◌ {A = Result Error Version} (ok x) (ok y) → x ≡ y
    ok_eq x y p = cc

parse_sound : (s : Text) (v : Version) → parse s ≡ ok v → IsTriple s v
unfolding parse
parse_sound s v e = elim (Bool-cases (is_empty s)) [
  | inl nothing ↦ absurd (cc (rw nothing at e))
  | inr something ↦
      let e1 = rw something at e in
      elim (Bool-cases (contains_byte b'-' s || contains_byte b'+' s)) [
        | inl signed ↦ absurd (cc (rw signed at e1))
        | inr unsigned ↦
            let e2 = rw unsigned at e1 in
            elim (Bool-cases (length (split_on b'.' s) == 3)) [
              | inr other ↦ absurd (cc (rw other at e2))
              | inl three ↦ parts_sound s (split_on b'.' s) v refl unsigned three (rw three at e2)
            ]
      ]
]

-- `Parse` accepts exactly the texts of the form major.minor.patch, each part one or more digits (with
-- any leading zeros) that fit a 64-bit int, and returns the numbers that they stand for.
pub parse_iff : (s : Text) (v : Version) → (parse s ≡ ok v) ↔ IsTriple s v
parse_iff s v = (parse_sound s v, parse_complete s v)
