-- ===== src/Common/Text.antt =====
-- Go strings as lists of bytes, with the functions of the Go standard library that the program
-- calls on them. Literals are ASCII, so their code points are their bytes.
use Prim.Native.Char.{code}
use Prim.Native.String.{String}
use locksmith.Common.{
  ℕ, ◌+◌, ◌-◌, ◌≡◌, refl, ◌↔◌, ◌⊎◌, Bool, true, false, ◌&&◌, ◌||◌, List, [], ◌∷◌, ◌++◌, map, arith,
  leb, ◌==◌, if◌then◌else◌,
}

abbrev pub Text : Type 0
Text = List ℕ

abbrev pub codes : String → Text
codes String.[] = []
codes (String.◌∷◌ c s) = code c ∷ codes s

unfoldable pub text_eq : Text → Text → Bool
text_eq [] [] = true
text_eq (a ∷ s) (b ∷ t) = (a == b) && text_eq s t
text_eq _ _ = false

pub text_eq_iff : (s t : Text) → (text_eq s t ≡ true) ↔ (s ≡ t)
unfolding text_eq
text_eq_iff (a ∷ s) (b ∷ t) = ground (arith, text_eq_iff s t)
text_eq_iff _ _ = ground arith

pub text_eq_refl : (s : Text) → text_eq s s ≡ true
text_eq_refl s = (text_eq_iff s s).1 refl

pub text_eq_sym : (s t : Text) → text_eq s t ≡ text_eq t s
text_eq_sym s t = ground (arith, text_eq_iff s t, text_eq_iff t s)

-- `s == ""`.
unfoldable pub is_empty : Text → Bool
is_empty [] = true
is_empty (c ∷ s) = false

-- `strings.HasPrefix(s, prefix)`.
unfoldable pub has_prefix : Text → Text → Bool
has_prefix s [] = true
has_prefix [] (p ∷ ps) = false
has_prefix (c ∷ s) (p ∷ ps) = (c == p) && has_prefix s ps

-- `strings.ToLower` and `strings.ToUpper` on bytes; bytes that are not ASCII letters stay.
unfoldable pub to_lower_byte : ℕ → ℕ
to_lower_byte c = if leb b'A' c && leb c b'Z' then c + 32 else c

unfoldable pub to_upper_byte : ℕ → ℕ
to_upper_byte c = if leb b'a' c && leb c b'z' then c - 32 else c

unfoldable pub to_lower : Text → Text
unfolding to_lower_byte
to_lower s = map to_lower_byte s

unfoldable pub to_upper : Text → Text
unfolding to_upper_byte
to_upper s = map to_upper_byte s

-- ASCII white space, as `strings.TrimSpace` and `strings.Fields` take it.
unfoldable pub is_space : ℕ → Bool
is_space c = (c == 32) || (leb 9 c && leb c 13)

unfoldable pub contains_byte : ℕ → Text → Bool
contains_byte b [] = false
contains_byte b (c ∷ s) = (c == b) || contains_byte b s

-- `strings.HasPrefix` is about a split of the text.
pub has_prefix-append : (p s : Text) → has_prefix (p ++ s) p ≡ true
unfolding has_prefix
has_prefix-append [] [] = refl
has_prefix-append [] (c ∷ s) = refl
has_prefix-append (c ∷ p) s = ground (arith, has_prefix-append p s)

pub is_empty_iff : (s : Text) → (is_empty s ≡ true) ↔ (s ≡ [])
unfolding is_empty
is_empty_iff [] = ground arith
is_empty_iff (c ∷ s) = ground arith

-- The text is one of the list.
abbrev pub Among : Text → List Text → Type 0
Among key [] = ⊥
Among key (k ∷ ks) = (k ≡ key) ⊎ Among key ks

-- `strings.Contains(s, sub)`.
unfoldable pub contains : Text → Text → Bool
contains [] sub = has_prefix [] sub
contains (c ∷ s) sub = let rest = contains s sub in has_prefix (c ∷ s) sub || rest

has_prefix-append_right : (s t p : Text) → has_prefix s p ≡ true → has_prefix (s ++ t) p ≡ true
unfolding has_prefix
has_prefix-append_right [] t [] h = has_prefix_nil t
  where
    has_prefix_nil : (t : Text) → has_prefix t [] ≡ true
    has_prefix_nil [] = refl
    has_prefix_nil (c ∷ t) = refl
has_prefix-append_right [] t (p ∷ ps) h = absurd (cc)
has_prefix-append_right (c ∷ s) t [] h = refl
has_prefix-append_right (c ∷ s) t (p ∷ ps) h = ground (arith, has_prefix-append_right s t ps)

-- A part of one of two texts is a part of the two together.
pub contains-append_left : (s t p : Text) → contains s p ≡ true → contains (s ++ t) p ≡ true
unfolding contains
contains-append_left [] [] p h = h
contains-append_left [] (c ∷ t) p h =
    let starts : has_prefix (c ∷ t) p ≡ true = has_prefix-append_right [] (c ∷ t) p h in
    rw starts refl
contains-append_left (c ∷ s) t p h =
    ground (arith, contains-append_left s t p, has_prefix-append_right (c ∷ s) t p)

pub contains-append_right : (s t p : Text) → contains t p ≡ true → contains (s ++ t) p ≡ true
unfolding contains
contains-append_right [] t p h = h
contains-append_right (c ∷ s) t p h = ground (arith, contains-append_right s t p h)

pub contains_of_prefix : (s p : Text) → has_prefix s p ≡ true → contains s p ≡ true
unfolding contains
contains_of_prefix [] p h = h
contains_of_prefix (c ∷ s) p h = ground (arith, h)
