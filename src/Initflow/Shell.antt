-- ===== src/Initflow/Shell.antt =====
-- internal/shellhook/shellhook.go: the snippet in a shell's rc file that starts the daemon.
--
-- The environment is a map, and os.UserHomeDir gives a directory or none. A file is its content, or none
-- if it does not exist.
use locksmith.Common.{
  ◌≡◌, ◌≢◌, refl, ap, Bool, true, false, List, [], ◌∷◌, ◌++◌, Option, none, some, Result, ok, err,
  if◌then◌else◌, ◌==◌,
}
use locksmith.Common.Text.{
  Text, codes, text_eq, is_empty, to_lower, contains, contains-append_right, contains-append_left,
  contains_of_prefix, has_prefix-append,
}
use locksmith.Common.Split.{split_on}
use locksmith.Common.Words.{trim_right}
use locksmith.Common.Paths.{join_path}
use locksmith.Common.Assoc.{Map, lookup}

pub data Shell : Type 0 where
  unknown bash zsh ash fish : Shell

abbrev pub marker : Text
marker = codes "# locksmith daemon autostart"

unfoldable pub last_of : Text → List Text → Text
last_of before [] = before
last_of before (p ∷ ps) = last_of p ps

-- filepath.Base: the last element of a path.
unfoldable pub base : Text → Text
base path =
    if is_empty path
    then codes "."
    else (let trimmed = trim_right (λ c. c == b'/') path in
        if is_empty trimmed then codes "/" else last_of [] (split_on b'/' trimmed))

-- parseShellPath
unfoldable pub parse_shell_path : Text → Shell
parse_shell_path path =
    let name = to_lower (base path) in
    if text_eq name (codes "zsh")
    then zsh
    else if text_eq name (codes "bash")
    then bash
    else if text_eq name (codes "ash")
    then ash
    else if text_eq name (codes "fish")
    then fish
    else unknown

-- os.Getenv
unfoldable pub getenv : Map Text → Text → Text
getenv env key = elim (lookup key env) [ none ↦ [] | some v ↦ v ]

unfoldable pub or_else : Shell → Shell → Shell
or_else unknown s = s
or_else bash s = bash
or_else zsh s = zsh
or_else ash s = ash
or_else fish s = fish

-- DetectShell
unfoldable pub detect_shell : Map Text → Shell
detect_shell env =
    or_else (parse_shell_path (getenv env (codes "SHELL")))
      (parse_shell_path (getenv env (codes "0")))

-- The switch of RCFile.
unfoldable pub rc_file_in : Text → Map Text → Shell → Option Text
rc_file_in home env unknown = none
rc_file_in home env zsh = some (join_path home (codes ".zshrc"))
rc_file_in home env bash = some (join_path home (codes ".bashrc"))
rc_file_in home env ash =
    let file = getenv env (codes "ENV") in
    if is_empty file then some (join_path home (codes ".profile")) else some file
rc_file_in home env fish = some (join_path home (codes ".config/fish/config.fish"))

-- RCFile
unfoldable pub rc_file : Option Text → Map Text → Shell → Option Text
rc_file none env s = none
rc_file (some home) env s = rc_file_in home env s

-- Snippet
unfoldable pub snippet : Shell → Text
snippet unknown = codes "locksmith _autostart 2>/dev/null"
snippet fish =
    marker
    ++ codes "\nif command -v locksmith >/dev/null 2>&1; locksmith _autostart 2>/dev/null; end"
snippet bash =
    marker
    ++ codes "\nif command -v locksmith >/dev/null 2>&1; then locksmith _autostart 2>/dev/null; fi"
snippet zsh =
    marker
    ++ codes "\nif command -v locksmith >/dev/null 2>&1; then locksmith _autostart 2>/dev/null; fi"
snippet ash =
    marker
    ++ codes "\nif command -v locksmith >/dev/null 2>&1; then locksmith _autostart 2>/dev/null; fi"

pub data Error : Type 0 where
  reading : Error
  opening : Error
  writing : Error

-- IsInstalled. The Boolean says whether an existing file can be read.
unfoldable pub is_installed : Bool → Option Text → Result Error Bool
is_installed readable none = ok false
is_installed true (some content) = ok (contains content marker)
is_installed false (some content) = err reading

unfoldable pub content_or_empty : Option Text → Text
content_or_empty none = []
content_or_empty (some content) = content

-- Install. The Booleans say whether the file can be opened and written.
unfoldable pub install : Bool → Bool → Shell → Option Text → Option Text × Result Error (Unit {0})
install false written s file = (file, err opening)
install true false s file = (some (content_or_empty file), err writing)
install true true s file = (some (content_or_empty file ++ (10 ∷ (snippet s ++ (10 ∷ [])))), ok tt)

snippet-marker : (s : Shell) → s ≢ unknown → contains (snippet s) marker ≡ true
unfolding snippet
snippet-marker unknown known = absurd (known refl)
snippet-marker bash known = contains_of_prefix (snippet bash) marker (has_prefix-append marker _)
snippet-marker zsh known = contains_of_prefix (snippet zsh) marker (has_prefix-append marker _)
snippet-marker ash known = contains_of_prefix (snippet ash) marker (has_prefix-append marker _)
snippet-marker fish known = contains_of_prefix (snippet fish) marker (has_prefix-append marker _)

-- For a known shell, `IsInstalled` finds the snippet in a file to which `Install` has added it with
-- success, whatever the file held, if it can read it; and what the file held is still its beginning.
pub is_installed-install :
    (s : Shell) (opens writes : Bool) (file : Option Text)
    → s ≢ unknown
    → (install opens writes s file).1 ≡ ok tt
    → (is_installed true (install opens writes s file).0 ≡ ok true)
      × ((rest : Text) × ((install opens writes s file).0 ≡ some (content_or_empty file ++ rest)))
unfolding install is_installed
is_installed-install s false writes file known done = absurd (cc)
is_installed-install s true false file known done = absurd (cc)
is_installed-install s true true file known done = (
  ap ok (
      contains-append_right (content_or_empty file) _ marker (
        contains-append_right (10 ∷ []) _ marker
          (contains-append_left (snippet s) (10 ∷ []) marker (snippet-marker s known)))),
  (_, refl),
)
