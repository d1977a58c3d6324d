-- ===== src/Initflow/Gpg.antt =====
-- internal/initflow/gpg.go: the pinentry-program line of gpg-agent.conf. The file is its content, or
-- none where it cannot be read.
use mathlib.Core.List.{reverse-cons}
use locksmith.Common.{
  ◌≡◌, ◌∙◌, refl, ap, sym, subst, Bool, true, false, not, List, [], ◌∷◌, ◌++◌, inl, inr, Option,
  none, some, Result, ok, err, if◌then◌else◌, length, drop, reverse, All, All-append, Bool-cases,
}
use locksmith.Common.Text.{
  Text, codes, is_empty, is_space, has_prefix, has_prefix-append, contains_byte,
}
use locksmith.Common.Split.{split_on, join_with, split_on-clear, split_on-join_with}
use locksmith.Common.Words.{trim_space, trim_space-head}

pub data Error : Type 0 where
  no_directory : Error
  no_write : Error

abbrev pub key : Text
key = codes "pinentry-program "

-- The test of both loops, on the trimmed line.
unfoldable pub is_program : Text → Bool
is_program line = has_prefix (trim_space line) key

-- strings.TrimPrefix of the trimmed line
unfoldable pub program_of : Text → Text
program_of line = drop (length key) (trim_space line)

-- The loop of ReadExistingPinentry.
unfoldable pub first_program : List Text → Text
first_program [] = []
first_program (line ∷ lines) = if is_program line then program_of line else first_program lines

-- ReadExistingPinentry
unfoldable pub read_existing_pinentry : Option Text → Text
read_existing_pinentry none = []
read_existing_pinentry (some content) = first_program (split_on 10 content)

-- The loop of ApplyGPGPinentry: the lines, and the last program that was commented out.
unfoldable pub comment_out : List Text → Text → List Text × Text
comment_out [] replaced = ([], replaced)
comment_out (line ∷ rest) replaced =
    let (lines, last) = comment_out rest (if is_program line then program_of line else replaced) in
    ((if is_program line then b'#' ∷ line else line) ∷ lines, last)

-- Removing trailing blank lines.
unfoldable pub drop_blank : List Text → List Text
drop_blank [] = []
drop_blank (line ∷ rest) = if is_empty line then drop_blank rest else line ∷ rest

unfoldable pub strip_blank : List Text → List Text
strip_blank lines = reverse (drop_blank (reverse lines))

-- The lines kept, and what they replace.
unfoldable pub kept_lines : Option Text → List Text × Text
kept_lines none = ([], [])
kept_lines (some content) =
    let (lines, replaced) = comment_out (split_on 10 content) [] in (strip_blank lines, replaced)

-- ApplyGPGPinentry. The Booleans say whether the directory is made and the file written; a failed write
-- leaves the file as it was, where the system may have truncated it.
unfoldable pub apply_gpg_pinentry :
    Text → Bool → Bool → Option Text → Option Text × Result Error Text
apply_gpg_pinentry pinentry_path made written file =
    if not made
    then (file, err no_directory)
    else if not written
    then (file, err no_write)
    else let (lines, replaced) = kept_lines file in
      (some (join_with 10 (lines ++ ((key ++ pinentry_path) ∷ [])) ++ (10 ∷ [])), ok replaced)

-- A line without line feed that does not set the program.
abbrev IsQuiet : Text → Type 0
IsQuiet line = (contains_byte 10 line ≡ false) × (is_program line ≡ false)

commented-IsQuiet : (line : Text) → contains_byte 10 line ≡ false → IsQuiet (b'#' ∷ line)
unfolding is_program
commented-IsQuiet line h =
    let (t, e) = trim_space-head b'#' line (unfold is_space in refl) in
    (unfold contains_byte in h, rw e (unfold has_prefix in refl))

comment_out-IsQuiet :
    (lines : List Text) (replaced : Text)
    → All (λ p. contains_byte 10 p ≡ false) lines
    → All IsQuiet (comment_out lines replaced).0
unfolding comment_out
comment_out-IsQuiet [] replaced h = tt
comment_out-IsQuiet (line ∷ lines) replaced h = elim (Bool-cases (is_program line)) [
  | inl hit ↦ rw hit (commented-IsQuiet line h.0, comment_out-IsQuiet lines _ h.1)
  | inr miss ↦ rw miss ((h.0, miss), comment_out-IsQuiet lines _ h.1)
]

All-reverse : {A : Type 0} (P : A → Type 0) (xs : List A) → All P xs → All P (reverse xs)
All-reverse P [] h = tt
All-reverse P (x ∷ xs) h =
    subst (All P) (sym (reverse-cons x xs))
      (All-append P (reverse xs) (x ∷ []) (All-reverse P xs h.1) (h.0, tt))

drop_blank-IsQuiet : (lines : List Text) → All IsQuiet lines → All IsQuiet (drop_blank lines)
unfolding drop_blank
drop_blank-IsQuiet [] h = tt
drop_blank-IsQuiet (line ∷ lines) h = elim (Bool-cases (is_empty line)) [
  | inl blank ↦ rw blank (drop_blank-IsQuiet lines h.1)
  | inr text ↦ rw text h
]

kept_lines-IsQuiet : (file : Option Text) → All IsQuiet (kept_lines file).0
unfolding kept_lines strip_blank
kept_lines-IsQuiet none = tt
kept_lines-IsQuiet (some content) =
    let lines = (comment_out (split_on 10 content) []).0 in
    All-reverse IsQuiet (drop_blank (reverse lines)) (
      drop_blank-IsQuiet (reverse lines) (
        All-reverse IsQuiet lines
          (comment_out-IsQuiet (split_on 10 content) [] (split_on-clear 10 content))))

first_program-IsQuiet :
    (lines : List Text) (line : Text) (rest : List Text)
    → All IsQuiet lines
    → is_program line ≡ true
    → first_program (lines ++ (line ∷ rest)) ≡ program_of line
unfolding first_program
first_program-IsQuiet [] line rest h p = rw p refl
first_program-IsQuiet (l ∷ lines) line rest h p =
    rw h.0.1 (first_program-IsQuiet lines line rest h.1 p)

All-clear : (lines : List Text) → All IsQuiet lines → All (λ p. contains_byte 10 p ≡ false) lines
All-clear [] h = tt
All-clear (line ∷ lines) h = (h.0.0, All-clear lines h.1)

-- A path that the line can hold: no line feed, and no white space at its end.
pub record IsPath (pinentry_path : Text) : Type 0 where
  pub one_line : contains_byte 10 pinentry_path ≡ false
  pub trimmed : trim_space (key ++ pinentry_path) ≡ key ++ pinentry_path

-- The pinentry that `ApplyGPGPinentry` has written is the one that `ReadExistingPinentry` then finds,
-- whatever the file held before, if the path has no line feed and no white space at its end.
pub read-apply_gpg_pinentry :
    (pinentry_path replaced : Text) (made written : Bool) (file : Option Text)
    → IsPath pinentry_path
    → (apply_gpg_pinentry pinentry_path made written file).1 ≡ ok replaced
    → read_existing_pinentry (apply_gpg_pinentry pinentry_path made written file).0 ≡ pinentry_path
unfolding apply_gpg_pinentry read_existing_pinentry
read-apply_gpg_pinentry path replaced false written file p h = absurd (cc)
read-apply_gpg_pinentry path replaced true false file p h = absurd (cc)
read-apply_gpg_pinentry path replaced true true file p h =
    let lines = (kept_lines file).0 in
    let quiet = kept_lines-IsQuiet file in
    let clear : contains_byte 10 (key ++ path) ≡ false = unfold contains_byte in p.one_line in
    let is : is_program (key ++ path) ≡ true =
      unfold is_program in rw p.trimmed (has_prefix-append key path) in
    ap first_program (split_on-join_with 10 lines (key ++ path) (All-clear lines quiet) clear)
    ∙ first_program-IsQuiet lines (key ++ path) ([] ∷ []) quiet is
    ∙ (unfold program_of in rw p.trimmed refl)
