-- ===== src/Bundled.antt =====
-- internal/bundled/extract.go: writing the bundled binaries to disk.
--
-- Files are a map from paths to contents. The hash, the contents in the bundle and the failures of the
-- operating system are arguments. The callbacks and the questions to the prompter are events.
pub mod Extracting
pub mod Integrity
pub mod Asking
use locksmith.Common.{
  Bool, true, false, not, ◌&&◌, ◌||◌, List, [], ◌∷◌, ◌++◌, Option, none, some, Result, ok, err,
  if◌then◌else◌, length, take, ltb, ℕ,
}
use locksmith.Common.Text.{Text, codes, text_eq}
use locksmith.Common.Paths.{join_path}
use locksmith.Common.Assoc.{Map, lookup, insert, delete}

pub record Entry : Type 0 where
  pub name : Text
  pub kind : Text
  pub sha256 : Text

pub data ConflictResolution : Type 0 where
  overwrite keep overwrite_all keep_all : ConflictResolution

-- The operating system call that fails for a destination, if one does.
pub data Fault : Type 0 where
  no_fault hash_fault mkdir_fault create_fault copy_fault close_fault rename_fault : Fault

pub data Error : Type 0 where
  no_entry : Text → Error
  unknown_kind : Text → Error
  hashing : Text → Error
  prompting : Text → Text → Error
  mkdir : Text → Error
  opening : Text → Error
  creating : Text → Error
  writing : Text → Error
  closing : Text → Error
  sha_mismatch : Text → Text → Error
  renaming : Text → Error

pub data Event : Type 0 where
  asked : Text → Event
  kept : Text → Bool → Event
  extracted : Text → Event

pub record ExtractOptions : Type 0 where
  pub names : List Text
  pub plugins_dir : Text
  pub pinentry_path : Text
  pub prompter : Option (Text → Text → Text → Result Text ConflictResolution)
  pub force_overwrite : Bool

-- What the bundle and the system give.
pub record World : Type 0 where
  pub entries : List Entry
  -- The content of a file in the zip.
  pub content : Text → Option Text
  pub sha : Text → Text
  pub fault : Text → Fault

-- ShortSHA
unfoldable pub short_sha : Text → Text
short_sha s = if ltb 8 (length s) then take 8 s else s

-- FindEntry
unfoldable pub find_entry : Text → List Entry → Option Entry
find_entry name [] = none
find_entry name (e ∷ es) = if text_eq e.name name then some e else find_entry name es

-- destPathFor
unfoldable pub dest_path_for : Entry → ExtractOptions → Result Error Text
dest_path_for e opts =
    if text_eq e.kind (codes "plugin")
    then ok (join_path opts.plugins_dir e.name)
    else if text_eq e.kind (codes "pinentry")
    then ok opts.pinentry_path
    else err (unknown_kind e.kind)

unfoldable pub is_keep : ConflictResolution → Bool
is_keep keep = true
is_keep keep_all = true
is_keep _ = false

-- The part of resolveConflict behind the prompter's answer.
unfoldable pub answer :
    Text → Result Text ConflictResolution → Result Error (Bool × Option ConflictResolution)
answer name (err e) = err (prompting name e)
answer name (ok overwrite) = ok (false, none)
answer name (ok keep) = ok (true, none)
answer name (ok overwrite_all) = ok (false, some overwrite_all)
answer name (ok keep_all) = ok (true, some keep_all)

-- Asking, or keeping the file where there is no prompter.
unfoldable pub consult :
    Option (Text → Text → Text → Result Text ConflictResolution)
    → Text
    → Text
    → Text
    → List Event × Result Error (Bool × Option ConflictResolution)
consult none name existing new = ([], ok (true, none))
consult (some ask) name existing new = (asked name ∷ [], answer name (ask name existing new))

-- resolveConflict: the questions asked, and whether to keep the file, with the new sticky resolution.
unfoldable pub resolve_conflict :
    ExtractOptions
    → Text
    → Text
    → Text
    → Option ConflictResolution
    → List Event × Result Error (Bool × Option ConflictResolution)
resolve_conflict opts name existing new (some r) = ([], ok (is_keep r, none))
resolve_conflict opts name existing new none = consult opts.prompter name existing new

abbrev pub Files : Type 0
Files = Map Text

-- dest + ".tmp"
unfoldable pub tmp_path : Text → Text
tmp_path dest = dest ++ codes ".tmp"

-- The end of writeEntry: the hash of what has been written, and the rename.
unfoldable pub finish_entry :
    World → Entry → Text → Text → Bool → Files → Files × Result Error (Unit {0})
finish_entry world e dest bytes renames fs =
    if not (text_eq (world.sha bytes) e.sha256)
    then (delete (tmp_path dest) fs, err (sha_mismatch e.name (world.sha bytes)))
    else if not renames
    then (insert (tmp_path dest) bytes fs, err (renaming dest))
    else (insert dest bytes (delete (tmp_path dest) fs), ok tt)

-- writeEntry, once the entry is open.
unfoldable pub write_content :
    World → Entry → Text → Text → Fault → Files → Files × Result Error (Unit {0})
write_content world e dest bytes create_fault fs = (fs, err (creating dest))
write_content world e dest bytes copy_fault fs = (delete (tmp_path dest) fs, err (writing dest))
write_content world e dest bytes close_fault fs = (delete (tmp_path dest) fs, err (closing dest))
write_content world e dest bytes rename_fault fs = finish_entry world e dest bytes false fs
write_content world e dest bytes _ fs = finish_entry world e dest bytes true fs

-- writeEntry behind b.Open.
unfoldable pub write_opened :
    World → Entry → Text → Fault → Option Text → Files → Files × Result Error (Unit {0})
write_opened world e dest fault none fs = (fs, err (opening e.name))
write_opened world e dest fault (some bytes) fs = write_content world e dest bytes fault fs

-- writeEntry
unfoldable pub write_entry : World → Entry → Text → Fault → Files → Files × Result Error (Unit {0})
write_entry world e dest mkdir_fault fs = (fs, err (mkdir dest))
write_entry world e dest fault fs = write_opened world e dest fault (world.content e.name) fs

-- FileSHA256: the hash, if the file is there.
unfoldable pub file_sha256 : World → Text → Fault → Files → Result Error (Option Text)
file_sha256 world path hash_fault fs = err (hashing path)
file_sha256 world path fault fs = elim (lookup path fs) [
  | none ↦ ok none
  | some bytes ↦ ok (some (world.sha bytes))
]
