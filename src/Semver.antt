-- ===== src/Semver.antt =====
-- internal/semver/semver.go: "major.minor.patch" versions. An `int` is a 64-bit integer.
pub mod Order
pub mod Grammar
use locksmith.Common.{
  ℕ, zero, suc, ◌+◌, ◌-◌, ◌*◌, ◌^◌, ◌≡◌, Bool, true, false, ◌&&◌, ◌||◌, not, List, [], ◌∷◌, Option,
  none, some, Result, ok, err, leb, ltb, ◌==◌, if◌then◌else◌, length,
}
use locksmith.Common.Int.{ℤ, pos, negsuc, pos_part, neg_part, ltb_ℤ}
use locksmith.Common.Text.{Text, codes, is_empty, contains_byte}
use locksmith.Common.Split.{split_on}

pub record Version : Type 0 where
  pub major : ℤ
  pub minor : ℤ
  pub patch : ℤ

pub data Error : Type 0 where
  empty_string : Error
  pre_release : Text → Error
  not_triple : Text → Error
  empty_component : Text → Error
  not_integer : ℕ → Text → Error
  negative : ℕ → Text → Error

-- strconv.Atoi, on a 64-bit machine.
abbrev pub is_digit : ℕ → Bool
is_digit c = leb b'0' c && leb c b'9'

unfoldable pub digits_from : ℕ → Text → Option ℕ
digits_from acc [] = some acc
digits_from acc (c ∷ cs) =
    let rest = digits_from (acc * 10 + (c - 48)) cs in if is_digit c then rest else none

unfoldable pub parse_uint : Text → Option ℕ
parse_uint [] = none
parse_uint (c ∷ cs) = digits_from 0 (c ∷ cs)

abbrev pub int_limit : ℕ
int_limit = 9223372036854775808

unfoldable pub positive : Option ℕ → Option ℤ
positive none = none
positive (some n) = if ltb n int_limit then some (pos n) else none

unfoldable pub negated : Option ℕ → Option ℤ
negated none = none
negated (some zero) = some (pos 0)
negated (some (suc n)) = if ltb n int_limit then some (negsuc n) else none

unfoldable pub atoi : Text → Option ℤ
atoi [] = none
atoi (c ∷ cs) =
    if c == b'-'
    then negated (parse_uint cs)
    else if c == b'+'
    then positive (parse_uint cs)
    else positive (parse_uint (c ∷ cs))

-- The switch on the component's index.
unfoldable pub set_part : ℕ → ℤ → Version → Version
set_part i n out =
    if i == 0
    then record out { major = n }
    else if i == 1
    then record out { minor = n }
    else if i == 2
    then record out { patch = n }
    else out

-- for i, p := range parts
unfoldable pub parse_loop : Text → ℕ → List Text → Version → Result Error Version
parse_loop s i [] out = ok out
parse_loop s i (p ∷ ps) out = elim (is_empty p) [
  | true ↦ err (empty_component s)
  | false ↦ elim (atoi p) [
    | none ↦ err (not_integer i p)
    | some n ↦ elim (ltb_ℤ n (pos 0)) [
      | true ↦ err (negative i s)
      | false ↦ parse_loop s (i + 1) ps (set_part i n out)
    ]
  ]
]

-- Version{}
abbrev pub zero_version : Version
zero_version = record { major = pos 0; minor = pos 0; patch = pos 0 }

-- Parse
unfoldable pub parse : Text → Result Error Version
parse s =
    if is_empty s
    then err empty_string
    else if contains_byte b'-' s || contains_byte b'+' s
    then err (pre_release s)
    else let parts = split_on b'.' s in
      if not (length parts == 3) then err (not_triple s) else parse_loop s 0 parts zero_version

-- a == b on integers
abbrev pub eq_ℤ : ℤ → ℤ → Bool
eq_ℤ a b = (pos_part a + neg_part b) == (pos_part b + neg_part a)

abbrev pub minus_one : ℤ
minus_one = negsuc 0

-- Version.Compare
unfoldable pub compare : Version → Version → ℤ
compare a b =
    if not (eq_ℤ a.major b.major)
    then (if ltb_ℤ a.major b.major then minus_one else pos 1)
    else if not (eq_ℤ a.minor b.minor)
    then (if ltb_ℤ a.minor b.minor then minus_one else pos 1)
    else if not (eq_ℤ a.patch b.patch)
    then (if ltb_ℤ a.patch b.patch then minus_one else pos 1)
    else pos 0

-- c <= 0 and c >= 0
abbrev pub not_pos : ℤ → Bool
not_pos c = not (ltb_ℤ (pos 0) c)

-- LessOrEqual
unfoldable pub less_or_equal : Version → Version → Bool
less_or_equal a b = not_pos (compare a b)

-- GreaterOrEqual
unfoldable pub greater_or_equal : Version → Version → Bool
greater_or_equal a b = not (ltb_ℤ (compare a b) (pos 0))
