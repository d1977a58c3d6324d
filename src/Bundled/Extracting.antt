-- ===== src/Bundled/Extracting.antt =====
-- Extract of internal/bundled/extract.go: the loop over the names.
use locksmith.Common.{
  Bool, true, false, List, [], ◌∷◌, ◌++◌, Option, none, some, Result, ok, err, if◌then◌else◌,
}
use locksmith.Common.Text.{Text, text_eq}
use locksmith.Bundled.{
  Entry, ConflictResolution, Error, no_entry, Event, kept, extracted, ExtractOptions, World, Files,
  find_entry, dest_path_for, resolve_conflict, write_entry, file_sha256,
}

-- What a round of the loop of Extract comes to.
pub record Round : Type 0 where
  pub files : Files
  pub sticky : Option ConflictResolution
  pub events : List Event
  pub result : Result Error (Unit {0})

unfoldable pub written_round :
    Text → Option ConflictResolution → List Event → Files × Result Error (Unit {0}) → Round
written_round name sticky events (fs, err x) = record {
  files = fs;
  sticky = sticky;
  events = events;
  result = err x;
}
written_round name sticky events (fs, ok u) = record {
  files = fs;
  sticky = sticky;
  events = events ++ (extracted name ∷ []);
  result = ok tt;
}

unfoldable pub write_round :
    World → Entry → Text → Text → Option ConflictResolution → List Event → Files → Round
write_round world e name dest sticky events fs =
    written_round name sticky events (write_entry world e dest (world.fault dest) fs)

-- if newSticky != noSticky { sticky = newSticky }
unfoldable pub update_sticky :
    Option ConflictResolution → Option ConflictResolution → Option ConflictResolution
update_sticky sticky none = sticky
update_sticky sticky (some r) = some r

-- The round behind the resolved conflict.
unfoldable pub resolved_round :
    World
    → Entry
    → Text
    → Text
    → Option ConflictResolution
    → Files
    → List Event × Result Error (Bool × Option ConflictResolution)
    → Round
resolved_round world e name dest sticky fs (events, err x) = record {
  files = fs;
  sticky = sticky;
  events = events;
  result = err x;
}
resolved_round world e name dest sticky fs (events, ok (true, new)) = record {
  files = fs;
  sticky = update_sticky sticky new;
  events = events ++ (kept name true ∷ []);
  result = ok tt;
}
resolved_round world e name dest sticky fs (events, ok (false, new)) =
    write_round world e name dest (update_sticky sticky new) events fs

-- The round for a file with another hash; the Boolean is ForceOverwrite.
unfoldable pub conflict_round :
    World
    → ExtractOptions
    → Entry
    → Text
    → Text
    → Text
    → Option ConflictResolution
    → Files
    → Bool
    → Round
conflict_round world opts e name dest existing sticky fs false =
    resolved_round world e name dest sticky fs (resolve_conflict opts name existing e.sha256 sticky)
conflict_round world opts e name dest existing sticky fs true =
    write_round world e name dest sticky [] fs

-- The round behind the hash of the existing file.
unfoldable pub hashed_round :
    World
    → ExtractOptions
    → Entry
    → Text
    → Text
    → Option ConflictResolution
    → Files
    → Result Error (Option Text)
    → Round
hashed_round world opts e name dest sticky fs (err x) = record {
  files = fs;
  sticky = sticky;
  events = [];
  result = err x;
}
hashed_round world opts e name dest sticky fs (ok none) = write_round world e name dest sticky [] fs
hashed_round world opts e name dest sticky fs (ok (some existing)) =
    if text_eq existing e.sha256
    then record { files = fs; sticky = sticky; events = kept name false ∷ []; result = ok tt }
    else conflict_round world opts e name dest existing sticky fs opts.force_overwrite

-- One round of the loop of Extract.
unfoldable pub round : World → ExtractOptions → Text → Option ConflictResolution → Files → Round
round world opts name sticky fs = elim (find_entry name world.entries) [
  | none ↦ record { files = fs; sticky = sticky; events = []; result = err (no_entry name) }
  | some e ↦ elim (dest_path_for e opts) [
    | err x ↦ record { files = fs; sticky = sticky; events = []; result = err x }
    | ok dest ↦
        hashed_round world opts e name dest sticky fs (file_sha256 world dest (world.fault dest) fs)
  ]
]

unfoldable pub extract_loop :
    World
    → ExtractOptions
    → List Text
    → Option ConflictResolution
    → Files
    → Files × List Event × Result Error (Unit {0})
extract_loop world opts [] sticky fs = (fs, [], ok tt)
extract_loop world opts (name ∷ names) sticky fs =
    let r = round world opts name sticky fs in
    elim r.result [
      | err x ↦ (r.files, r.events, err x)
      | ok u ↦
          let (fs', events, out) = extract_loop world opts names r.sticky r.files in
          (fs', r.events ++ events, out)
    ]

-- Extract
unfoldable pub extract :
    World → ExtractOptions → Files → Files × List Event × Result Error (Unit {0})
extract world opts fs = extract_loop world opts opts.names none fs
