-- ===== src/Bundled/Asking.antt =====
-- How often Extract of internal/bundled/extract.go asks about a file that differs.
use locksmith.Common.{
  ℕ, ◌+◌, ◌≤◌, ◌≡◌, ◌⊎◌, refl, Bool, true, false, List, [], ◌∷◌, ◌++◌, inl, inr, Option, none, some,
  Result, ok, err, arith, Bool-cases, Option-cases, Result-cases,
}
use locksmith.Common.Text.{Text, text_eq}
use locksmith.Bundled.{
  Entry, ConflictResolution, overwrite_all, keep_all, Error, Event, asked, kept, extracted,
  ExtractOptions, World, Files, find_entry, dest_path_for, answer, consult, resolve_conflict,
  write_entry, file_sha256,
}
use locksmith.Bundled.Extracting.{
  Round, written_round, write_round, update_sticky, resolved_round, conflict_round, hashed_round,
  round, extract_loop, extract,
}

unfoldable pub questions : List Event → ℕ
questions [] = 0
questions (asked name ∷ events) = 1 + questions events
questions (kept name warning ∷ events) = questions events
questions (extracted name ∷ events) = questions events

questions-append : (a b : List Event) → questions (a ++ b) ≡ questions a + questions b
unfolding questions
questions-append [] b = omega arith
questions-append (asked n ∷ a) b = omega (arith, questions-append a b)
questions-append (kept n w ∷ a) b = questions-append a b
questions-append (extracted n ∷ a) b = questions-append a b

-- The questions that may still come: one while nothing has been settled for all files.
unfoldable pub left_to_ask : Option ConflictResolution → ℕ
left_to_ask none = 1
left_to_ask (some r) = 0

-- Every answer settles the remaining files too.
abbrev pub SettlesAll : Option (Text → Text → Text → Result Text ConflictResolution) → Type 0
SettlesAll none = Unit
SettlesAll (some ask) =
    (name existing new : Text)
    → (ask name existing new ≡ ok overwrite_all) ⊎ (ask name existing new ≡ ok keep_all)

abbrev IsSpent : Option ConflictResolution → Round → Type 0
IsSpent sticky r = questions r.events + left_to_ask r.sticky ≤ left_to_ask sticky

module _ (world : World) (opts : ExtractOptions) where
  written_round-IsSpent :
      (name : Text) (old sticky : Option ConflictResolution) (events : List Event)
      (r : Files × Result Error (Unit {0}))
      → questions events + left_to_ask sticky ≤ left_to_ask old
      → IsSpent old (written_round name sticky events r)
  unfolding written_round
  written_round-IsSpent name old sticky events (fs, err x) h = h
  written_round-IsSpent name old sticky events (fs, ok u) h =
      omega (arith, questions-append events (extracted name ∷ []), h, nothing name)
    where
      nothing : (name : Text) → questions (extracted name ∷ []) ≡ 0
      nothing name = unfold questions in refl

  write_round-IsSpent :
      (e : Entry) (name dest : Text) (old sticky : Option ConflictResolution) (events : List Event)
      (fs : Files)
      → questions events + left_to_ask sticky ≤ left_to_ask old
      → IsSpent old (write_round world e name dest sticky events fs)
  unfolding write_round
  write_round-IsSpent e name dest old sticky events fs h =
      written_round-IsSpent name old sticky events (write_entry world e dest (world.fault dest) fs)
        h

  -- What resolveConflict may say while this much is left to ask.
  abbrev Fits :
      Option ConflictResolution
      → List Event × Result Error (Bool × Option ConflictResolution)
      → Type 0
  Fits sticky (events, err x) = questions events ≡ 0
  Fits sticky (events, ok (keeps, new)) =
      questions events + left_to_ask (update_sticky sticky new) ≤ left_to_ask sticky

  consult-Fits :
      (prompter : Option (Text → Text → Text → Result Text ConflictResolution))
      (name existing new : Text)
      → SettlesAll prompter
      → Fits none (consult prompter name existing new)
  unfolding consult update_sticky left_to_ask questions
  consult-Fits none name existing new all = omega arith
  consult-Fits (some ask) name existing new all = elim (all name existing new) [
    | inl over ↦ rw over (unfold answer in omega arith)
    | inr keeps ↦ rw keeps (unfold answer in omega arith)
  ]

  resolve_conflict-Fits :
      (name existing new : Text) (sticky : Option ConflictResolution)
      → SettlesAll opts.prompter
      → Fits sticky (resolve_conflict opts name existing new sticky)
  unfolding resolve_conflict update_sticky left_to_ask questions
  resolve_conflict-Fits name existing new (some r) all = omega arith
  resolve_conflict-Fits name existing new none all =
      consult-Fits opts.prompter name existing new all

  resolved_round-IsSpent :
      (e : Entry) (name dest : Text) (sticky : Option ConflictResolution) (fs : Files)
      (r : List Event × Result Error (Bool × Option ConflictResolution))
      → Fits sticky r
      → IsSpent sticky (resolved_round world e name dest sticky fs r)
  unfolding resolved_round
  resolved_round-IsSpent e name dest sticky fs (events, err x) h = omega (arith, h)
  resolved_round-IsSpent e name dest sticky fs (events, ok (true, new)) h =
      omega (arith, h, questions-append events (kept name true ∷ []), nothing name)
    where
      nothing : (name : Text) → questions (kept name true ∷ []) ≡ 0
      nothing name = unfold questions in refl
  resolved_round-IsSpent e name dest sticky fs (events, ok (false, new)) h =
      write_round-IsSpent e name dest sticky (update_sticky sticky new) events fs h

  conflict_round-IsSpent :
      (e : Entry) (name dest existing : Text) (sticky : Option ConflictResolution) (fs : Files)
      (force : Bool)
      → SettlesAll opts.prompter
      → IsSpent sticky (conflict_round world opts e name dest existing sticky fs force)
  unfolding conflict_round
  conflict_round-IsSpent e name dest existing sticky fs false all =
      resolved_round-IsSpent e name dest sticky fs
        (resolve_conflict opts name existing e.sha256 sticky)
        (resolve_conflict-Fits name existing e.sha256 sticky all)
  conflict_round-IsSpent e name dest existing sticky fs true all =
      write_round-IsSpent e name dest sticky sticky [] fs (no_question sticky)
    where
      no_question : (s : Option ConflictResolution) → questions [] + left_to_ask s ≤ left_to_ask s
      no_question s = unfold questions in omega arith

  hashed_round-IsSpent :
      (e : Entry) (name dest : Text) (sticky : Option ConflictResolution) (fs : Files)
      (r : Result Error (Option Text))
      → SettlesAll opts.prompter
      → IsSpent sticky (hashed_round world opts e name dest sticky fs r)
  unfolding hashed_round questions
  hashed_round-IsSpent e name dest sticky fs (err x) all = omega arith
  hashed_round-IsSpent e name dest sticky fs (ok none) all =
      write_round-IsSpent e name dest sticky sticky [] fs (omega arith)
  hashed_round-IsSpent e name dest sticky fs (ok (some existing)) all =
      elim (Bool-cases (text_eq existing e.sha256)) [
        | inl same ↦ rw (same, hashed_round) (omega arith)
        | inr other ↦
            rw (other, hashed_round)
              (conflict_round-IsSpent e name dest existing sticky fs opts.force_overwrite all)
      ]

  round-IsSpent :
      (name : Text) (sticky : Option ConflictResolution) (fs : Files)
      → SettlesAll opts.prompter
      → IsSpent sticky (round world opts name sticky fs)
  unfolding round questions
  round-IsSpent name sticky fs all = elim (Option-cases (find_entry name world.entries)) [
    | inl missing ↦ rw (missing, round) (omega arith)
    | inr (e, there) ↦ elim (Result-cases (dest_path_for e opts)) [
      | inr (x, failed) ↦ rw (there, round) (rw failed (omega arith))
      | inl (dest, d) ↦
          rw (there, round)
            (rw d (
              hashed_round-IsSpent e name dest sticky fs
                (file_sha256 world dest (world.fault dest) fs) all))
    ]
  ]

  loop_questions :
      (names : List Text) (sticky : Option ConflictResolution) (fs : Files)
      → SettlesAll opts.prompter
      → questions (extract_loop world opts names sticky fs).1 ≤ left_to_ask sticky
  unfolding extract_loop
  loop_questions [] sticky fs all = unfold questions in omega arith
  loop_questions (name ∷ names) sticky fs all =
      let r = round world opts name sticky fs in
      let now = round-IsSpent name sticky fs all in
      elim (Result-cases r.result) [
        | inr (x, failed) ↦ rw (failed, extract_loop) (omega (arith, now))
        | inl (u, done) ↦
            rw (done, extract_loop)
              (omega (
                arith,
                now,
                loop_questions names r.sticky r.files all,
                questions-append r.events (extract_loop world opts names r.sticky r.files).1,
              ))
      ]

  -- `Extract` asks at most once if every answer that the prompter gives is OverwriteAll or KeepAll, or
  -- if there is no prompter, however many files differ.
  pub extract_asks_once :
      (fs : Files) → SettlesAll opts.prompter → questions (extract world opts fs).1 ≤ 1
  unfolding extract left_to_ask
  extract_asks_once fs all = loop_questions opts.names none fs all
