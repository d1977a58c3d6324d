-- ===== src/Common/Scan.antt =====
-- bufio.Scanner over lines, with its default limit: a line that does not fit the buffer of 64 KiB
-- with its line feed ends the scan, as the end of the text does.
use mathlib.Core.List.{append_assoc}
use locksmith.Common.{
  ℕ, ◌<◌, ◌≤◌, ◌≡◌, ◌∙◌, ap, sym, false, List, [], ◌∷◌, ◌++◌, map, arith, ltb, ◌==◌, if◌then◌else◌,
  length, All,
}
use locksmith.Common.Text.{Text, contains_byte}
use locksmith.Common.Split.{split_on, split_on-append, split_on_ne}

-- A line feed at the end of the text begins no line.
unfoldable pub drop_last_empty : List Text → List Text
drop_last_empty [] = []
drop_last_empty ([] ∷ []) = []
drop_last_empty ([] ∷ line ∷ lines) = [] ∷ drop_last_empty (line ∷ lines)
drop_last_empty ((c ∷ s) ∷ lines) = (c ∷ s) ∷ drop_last_empty lines

-- A carriage return at the end of a line goes with its line feed.
unfoldable pub drop_return : Text → Text
drop_return [] = []
drop_return (c ∷ []) = if c == 13 then [] else c ∷ []
drop_return (c ∷ d ∷ s) = c ∷ drop_return (d ∷ s)

-- The longest line that a scanner reads.
abbrev pub max_line : ℕ
max_line = 65535

unfoldable pub scan_from : ℕ → List Text → List Text
scan_from max [] = []
scan_from max (line ∷ lines) =
    let rest = scan_from max lines in if ltb max (length line) then [] else drop_return line ∷ rest

unfoldable pub scan_upto : ℕ → Text → List Text
scan_upto max text = scan_from max (drop_last_empty (split_on 10 text))

-- The lines that Scan and Text give for a text.
unfoldable pub scan_lines : Text → List Text
scan_lines text = scan_upto max_line text

-- Lines, each with its line feed.
unfoldable pub unlines : List Text → Text
unlines [] = []
unlines (line ∷ lines) = line ++ (10 ∷ unlines lines)

-- A line that a scanner reads up to a limit.
abbrev pub IsScanned : ℕ → Text → Type 0
IsScanned max line = (contains_byte 10 line ≡ false) × (length line ≤ max)

scan_long :
    (max : ℕ) (long : Text) (lines : List Text)
    → max < length long
    → scan_from max (drop_last_empty (long ∷ lines)) ≡ []
unfolding scan_from drop_last_empty
scan_long max [] lines h = absurd (omega arith)
scan_long max (c ∷ s) lines h = ground arith

scan_short :
    (max : ℕ) (line next : Text) (lines : List Text)
    → length line ≤ max
    → scan_from max (drop_last_empty (line ∷ next ∷ lines))
      ≡ drop_return line ∷ scan_from max (drop_last_empty (next ∷ lines))
unfolding scan_from drop_last_empty
scan_short max [] next lines h = ground arith
scan_short max (c ∷ s) next lines h = ground arith

-- Of a text in which a line is too long the scanner reads the lines before that one.
pub scan-too_long :
    (max : ℕ) (lines : List Text) (long rest : Text)
    → All (IsScanned max) lines
    → contains_byte 10 long ≡ false
    → max < length long
    → scan_upto max (unlines lines ++ (long ++ (10 ∷ rest))) ≡ map drop_return lines
unfolding scan_upto unlines
scan-too_long max [] long rest h clear big =
    rw (split_on-append 10 long rest clear) (scan_long max long (split_on 10 rest) big)
scan-too_long max (line ∷ lines) long rest h clear big =
    let after : Text = unlines lines ++ (long ++ (10 ∷ rest)) in
    let (next, more, e) = split_on_ne 10 after in
    ap (λ t. scan_from max (drop_last_empty (split_on 10 t)))
      (append_assoc line (10 ∷ unlines lines) (long ++ (10 ∷ rest)))
    ∙ ap (λ ps. scan_from max (drop_last_empty ps)) (split_on-append 10 line after h.0.0)
    ∙ ap (λ ps. scan_from max (drop_last_empty (line ∷ ps))) e
    ∙ scan_short max line next more h.0.1
    ∙ ap (λ ps. drop_return line ∷ scan_from max (drop_last_empty ps)) (sym e)
    ∙ ap (λ ls. drop_return line ∷ ls) (scan-too_long max lines long rest h.1 clear big)
