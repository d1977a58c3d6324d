-- ===== src/Tests/Installers.antt =====
-- The installers of internal/initflow at concrete inputs.
use locksmith.Common.{◌≡◌, refl, true, [], ◌∷◌, ◌++◌, Option, some}
use locksmith.Common.Text.{Text, codes, has_prefix, contains_byte, is_space}
use locksmith.Common.Split
use locksmith.Common.Words.{trim_space, trim_left}
use locksmith.Initflow.Gpg.{
  apply_gpg_pinentry, read_existing_pinentry, IsPath, kept_lines, comment_out,
  read-apply_gpg_pinentry, is_program, program_of,
}

abbrev path : Text
path = codes "/home/me/bin/locksmith-pinentry"

path-IsPath : IsPath path
unfolding contains_byte trim_space trim_left is_space
path-IsPath = record { one_line = refl; trimmed = refl }

-- A file with a pinentry of another program.
abbrev conf : Option Text
conf = some (codes "pinentry-program /usr/bin/pinentry" ++ (10 ∷ []))

read-apply_gpg_pinentry_example :
    read_existing_pinentry (apply_gpg_pinentry path true true conf).0 ≡ path
unfolding apply_gpg_pinentry kept_lines comment_out Split.split_on is_program program_of has_prefix
    trim_space trim_left is_space
read-apply_gpg_pinentry_example =
    read-apply_gpg_pinentry path (codes "/usr/bin/pinentry") true true conf path-IsPath refl
