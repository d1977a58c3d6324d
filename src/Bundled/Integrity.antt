-- ===== src/Bundled/Integrity.antt =====
-- What Extract of internal/bundled/extract.go leaves on disk.
use mathlib.Core.List.{reverse-append}
use locksmith.Common.{
  ◌≡◌, ◌∙◌, ◌⊎◌, refl, ap, sym, subst, Bool, true, false, List, [], ◌∷◌, ◌++◌, inl, inr, Option,
  none, some, Result, ok, err, reverse, Bool-cases, Option-cases, Result-cases,
}
use locksmith.Common.Text.{Text, codes, text_eq, text_eq_iff, has_prefix, has_prefix-append}
use locksmith.Common.Assoc.{lookup, delete, lookup-insert, lookup-delete}
use locksmith.Bundled.{
  Entry, ConflictResolution, Fault, no_fault, hash_fault, mkdir_fault, create_fault, copy_fault,
  close_fault, rename_fault, Error, Event, ExtractOptions, World, Files, find_entry, dest_path_for,
  tmp_path, finish_entry, write_content, write_opened, write_entry, file_sha256, resolve_conflict,
}
use locksmith.Bundled.Extracting.{
  written_round, conflict_round, write_round, update_sticky, resolved_round, hashed_round, round,
  extract_loop, extract,
}

-- The path ends in ".tmp".
unfoldable pub is_tmp : Text → Bool
is_tmp p = has_prefix (reverse p) (reverse (codes ".tmp"))

tmp_path-other : (dest p : Text) → is_tmp p ≡ false → text_eq (tmp_path dest) p ≡ false
unfolding is_tmp tmp_path
tmp_path-other dest p h = elim (Bool-cases (text_eq (dest ++ codes ".tmp") p)) [
  | inr other ↦ other
  | inl same ↦
      let tail : has_prefix (reverse p) (reverse (codes ".tmp")) ≡ true =
        subst (λ x. has_prefix (reverse x) (reverse (codes ".tmp")) ≡ true)
          ((text_eq_iff (dest ++ codes ".tmp") p).0 same)
          (rw (reverse-append dest (codes ".tmp"))
            (has_prefix-append (reverse (codes ".tmp")) (reverse dest))) in
      absurd (cc (tail, h))
]

find_entry-name :
    (name : Text) (es : List Entry) (e : Entry) → find_entry name es ≡ some e → e.name ≡ name
unfolding find_entry
find_entry-name name [] e h = absurd (cc)
find_entry-name name (x ∷ es) e h = elim (Bool-cases (text_eq x.name name)) [
  | inl hit ↦
      let same : x ≡ e = cc (rw hit at h) in
      subst (λ y. y.name ≡ name) same ((text_eq_iff x.name name).0 hit)
  | inr miss ↦ find_entry-name name es e (rw miss at h)
]

module _ (world : World) (opts : ExtractOptions) where
  -- The path holds what the bundle has under the name of an entry that belongs there, with its hash.
  pub record IsWritten (p : Text) (fs : Files) : Type 0 where
    pub entry : Entry
    pub listed : find_entry entry.name world.entries ≡ some entry
    pub dest : dest_path_for entry opts ≡ ok p
    pub bytes : Text
    pub is_content : world.content entry.name ≡ some bytes
    pub right_hash : world.sha bytes ≡ entry.sha256
    pub on_disk : lookup p fs ≡ some bytes

  abbrev pub IsIntact : Text → Files → Files → Type 0
  IsIntact p fs fs' = (lookup p fs' ≡ lookup p fs) ⊎ IsWritten p fs'

  IsIntact-trans : (p : Text) (a b c : Files) → IsIntact p a b → IsIntact p b c → IsIntact p a c
  IsIntact-trans p a b c first (inr written) = inr written
  IsIntact-trans p a b c (inl same) (inl same') = inl (same' ∙ same)
  IsIntact-trans p a b c (inr w) (inl same) = inr (record {
    entry = w.entry;
    listed = w.listed;
    dest = w.dest;
    bytes = w.bytes;
    is_content = w.is_content;
    right_hash = w.right_hash;
    on_disk = same ∙ w.on_disk;
  })

  delete_tmp-IsIntact :
      (p dest : Text) (fs : Files)
      → is_tmp p ≡ false
      → lookup p (delete (tmp_path dest) fs) ≡ lookup p fs
  delete_tmp-IsIntact p dest fs t = rw (lookup-delete, tmp_path-other dest p t)

  finish_entry-IsIntact :
      (e : Entry) (p dest bytes : Text) (renames : Bool) (fs : Files)
      → is_tmp p ≡ false
      → find_entry e.name world.entries ≡ some e
      → dest_path_for e opts ≡ ok dest
      → world.content e.name ≡ some bytes
      → IsIntact p fs (finish_entry world e dest bytes renames fs).0
  unfolding finish_entry
  finish_entry-IsIntact e p dest bytes false fs t l d c =
      elim (Bool-cases (text_eq (world.sha bytes) e.sha256)) [
        | inr wrong ↦ rw (wrong, finish_entry) (inl (delete_tmp-IsIntact p dest fs t))
        | inl right ↦ rw (right, finish_entry) (inl (rw (lookup-insert, tmp_path-other dest p t)))
      ]
  finish_entry-IsIntact e p dest bytes true fs t l d c =
      elim (Bool-cases (text_eq (world.sha bytes) e.sha256)) [
        | inr wrong ↦ rw (wrong, finish_entry) (inl (delete_tmp-IsIntact p dest fs t))
        | inl right ↦ elim (Bool-cases (text_eq dest p)) [
          | inr other ↦
              rw (right, finish_entry)
                (inl (rw (lookup-insert, other) (delete_tmp-IsIntact p dest fs t)))
          | inl same ↦
              rw (right, finish_entry)
                (inr (record {
                  entry = e;
                  listed = l;
                  dest = d ∙ ap (λ x. ok x) ((text_eq_iff dest p).0 same);
                  bytes = bytes;
                  is_content = c;
                  right_hash = (text_eq_iff (world.sha bytes) e.sha256).0 right;
                  on_disk = rw (lookup-insert, same);
                }))
        ]
      ]

  write_content-IsIntact :
      (e : Entry) (p dest bytes : Text) (fault : Fault) (fs : Files)
      → is_tmp p ≡ false
      → find_entry e.name world.entries ≡ some e
      → dest_path_for e opts ≡ ok dest
      → world.content e.name ≡ some bytes
      → IsIntact p fs (write_content world e dest bytes fault fs).0
  unfolding write_content
  write_content-IsIntact e p dest bytes no_fault fs t l d c =
      finish_entry-IsIntact e p dest bytes true fs t l d c
  write_content-IsIntact e p dest bytes hash_fault fs t l d c =
      finish_entry-IsIntact e p dest bytes true fs t l d c
  write_content-IsIntact e p dest bytes mkdir_fault fs t l d c =
      finish_entry-IsIntact e p dest bytes true fs t l d c
  write_content-IsIntact e p dest bytes create_fault fs t l d c = inl refl
  write_content-IsIntact e p dest bytes copy_fault fs t l d c =
      inl (delete_tmp-IsIntact p dest fs t)
  write_content-IsIntact e p dest bytes close_fault fs t l d c =
      inl (delete_tmp-IsIntact p dest fs t)
  write_content-IsIntact e p dest bytes rename_fault fs t l d c =
      finish_entry-IsIntact e p dest bytes false fs t l d c

  write_opened-IsIntact :
      (e : Entry) (p dest : Text) (fault : Fault) (content : Option Text) (fs : Files)
      → is_tmp p ≡ false
      → find_entry e.name world.entries ≡ some e
      → dest_path_for e opts ≡ ok dest
      → world.content e.name ≡ content
      → IsIntact p fs (write_opened world e dest fault content fs).0
  unfolding write_opened
  write_opened-IsIntact e p dest fault none fs t l d c = inl refl
  write_opened-IsIntact e p dest fault (some bytes) fs t l d c =
      write_content-IsIntact e p dest bytes fault fs t l d c

  write_entry-IsIntact :
      (e : Entry) (p dest : Text) (fault : Fault) (fs : Files)
      → is_tmp p ≡ false
      → find_entry e.name world.entries ≡ some e
      → dest_path_for e opts ≡ ok dest
      → IsIntact p fs (write_entry world e dest fault fs).0
  unfolding write_entry
  write_entry-IsIntact e p dest mkdir_fault fs t l d = inl refl
  write_entry-IsIntact e p dest no_fault fs t l d =
      write_opened-IsIntact e p dest no_fault (world.content e.name) fs t l d refl
  write_entry-IsIntact e p dest hash_fault fs t l d =
      write_opened-IsIntact e p dest hash_fault (world.content e.name) fs t l d refl
  write_entry-IsIntact e p dest create_fault fs t l d =
      write_opened-IsIntact e p dest create_fault (world.content e.name) fs t l d refl
  write_entry-IsIntact e p dest copy_fault fs t l d =
      write_opened-IsIntact e p dest copy_fault (world.content e.name) fs t l d refl
  write_entry-IsIntact e p dest close_fault fs t l d =
      write_opened-IsIntact e p dest close_fault (world.content e.name) fs t l d refl
  write_entry-IsIntact e p dest rename_fault fs t l d =
      write_opened-IsIntact e p dest rename_fault (world.content e.name) fs t l d refl

  written_round-IsIntact :
      (p name : Text) (sticky : Option ConflictResolution) (events : List Event) (fs : Files)
      (r : Files × Result Error (Unit {0}))
      → IsIntact p fs r.0
      → IsIntact p fs (written_round name sticky events r).files
  unfolding written_round
  written_round-IsIntact p name sticky events fs (fs', err x) h = h
  written_round-IsIntact p name sticky events fs (fs', ok u) h = h

  write_round-IsIntact :
      (e : Entry) (p name dest : Text) (sticky : Option ConflictResolution) (events : List Event)
      (fs : Files)
      → is_tmp p ≡ false
      → find_entry e.name world.entries ≡ some e
      → dest_path_for e opts ≡ ok dest
      → IsIntact p fs (write_round world e name dest sticky events fs).files
  unfolding write_round
  write_round-IsIntact e p name dest sticky events fs t l d =
      written_round-IsIntact p name sticky events fs
        (write_entry world e dest (world.fault dest) fs)
        (write_entry-IsIntact e p dest (world.fault dest) fs t l d)

  resolved_round-IsIntact :
      (e : Entry) (p name dest : Text) (sticky : Option ConflictResolution) (fs : Files)
      (r : List Event × Result Error (Bool × Option ConflictResolution))
      → is_tmp p ≡ false
      → find_entry e.name world.entries ≡ some e
      → dest_path_for e opts ≡ ok dest
      → IsIntact p fs (resolved_round world e name dest sticky fs r).files
  unfolding resolved_round
  resolved_round-IsIntact e p name dest sticky fs (events, err x) t l d = inl refl
  resolved_round-IsIntact e p name dest sticky fs (events, ok (true, new)) t l d = inl refl
  resolved_round-IsIntact e p name dest sticky fs (events, ok (false, new)) t l d =
      write_round-IsIntact e p name dest (update_sticky sticky new) events fs t l d

  conflict_round-IsIntact :
      (e : Entry) (p name dest existing : Text) (sticky : Option ConflictResolution) (fs : Files)
      (force : Bool)
      → is_tmp p ≡ false
      → find_entry e.name world.entries ≡ some e
      → dest_path_for e opts ≡ ok dest
      → IsIntact p fs (conflict_round world opts e name dest existing sticky fs force).files
  unfolding conflict_round
  conflict_round-IsIntact e p name dest existing sticky fs false t l d =
      resolved_round-IsIntact e p name dest sticky fs
        (resolve_conflict opts name existing e.sha256 sticky) t l d
  conflict_round-IsIntact e p name dest existing sticky fs true t l d =
      write_round-IsIntact e p name dest sticky [] fs t l d

  hashed_round-IsIntact :
      (e : Entry) (p name dest : Text) (sticky : Option ConflictResolution) (fs : Files)
      (r : Result Error (Option Text))
      → is_tmp p ≡ false
      → find_entry e.name world.entries ≡ some e
      → dest_path_for e opts ≡ ok dest
      → IsIntact p fs (hashed_round world opts e name dest sticky fs r).files
  unfolding hashed_round
  hashed_round-IsIntact e p name dest sticky fs (err x) t l d = inl refl
  hashed_round-IsIntact e p name dest sticky fs (ok none) t l d =
      write_round-IsIntact e p name dest sticky [] fs t l d
  hashed_round-IsIntact e p name dest sticky fs (ok (some existing)) t l d =
      elim (Bool-cases (text_eq existing e.sha256)) [
        | inl same ↦ rw (same, hashed_round) (inl refl)
        | inr other ↦
            rw (other, hashed_round)
              (conflict_round-IsIntact e p name dest existing sticky fs opts.force_overwrite t l d)
      ]

  round-IsIntact :
      (p name : Text) (sticky : Option ConflictResolution) (fs : Files)
      → is_tmp p ≡ false
      → IsIntact p fs (round world opts name sticky fs).files
  unfolding round
  round-IsIntact p name sticky fs t = elim (Option-cases (find_entry name world.entries)) [
    | inl missing ↦ rw (missing, round) (inl refl)
    | inr (e, there) ↦ elim (Result-cases (dest_path_for e opts)) [
      | inr (x, failed) ↦ rw (there, round) (rw failed (inl refl))
      | inl (dest, d) ↦
          rw (there, round)
            (rw d (
              hashed_round-IsIntact e p name dest sticky fs
                (file_sha256 world dest (world.fault dest) fs) t
                (subst (λ n. find_entry n world.entries ≡ some e)
                  (sym (find_entry-name name world.entries e there)) there)
                d))
    ]
  ]

  loop-IsIntact :
      (p : Text) (names : List Text) (sticky : Option ConflictResolution) (fs : Files)
      → is_tmp p ≡ false
      → IsIntact p fs (extract_loop world opts names sticky fs).0
  unfolding extract_loop
  loop-IsIntact p [] sticky fs t = inl refl
  loop-IsIntact p (name ∷ names) sticky fs t =
      let r = round world opts name sticky fs in
      let now = round-IsIntact p name sticky fs t in
      elim (Result-cases r.result) [
        | inr (x, failed) ↦ rw (failed, extract_loop) now
        | inl (u, done) ↦
            rw (done, extract_loop)
              (IsIntact-trans p fs r.files (extract_loop world opts names r.sticky r.files).0 now
                (loop-IsIntact p names r.sticky r.files t))
      ]

  -- However `Extract` ends, every path that does not end in ".tmp" holds what it held before, or else what
  -- the bundle has for an entry whose destination it is, with the hash that the manifest says.
  pub extract-IsIntact :
      (p : Text) (fs : Files) → is_tmp p ≡ false → IsIntact p fs (extract world opts fs).0
  unfolding extract
  extract-IsIntact p fs t = loop-IsIntact p opts.names none fs t
