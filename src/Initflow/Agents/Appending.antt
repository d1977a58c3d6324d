-- ===== src/Initflow/Agents/Appending.antt =====
-- What appendIfAbsent of internal/initflow/agents.go does to the user's files.
use mathlib.Core.List.{append-nil}
use locksmith.Common.{
  ◌≡◌, ◌≢◌, ◌∙◌, refl, sym, ap, subst, true, false, [], ◌∷◌, ◌++◌, inl, inr, none, some, ok, arith,
  if◌then◌else◌, Bool-cases, Option-cases,
}
use locksmith.Common.Text.{Text, text_eq, text_eq_iff, is_empty, contains, contains-append_right}
use locksmith.Common.Assoc.{lookup, insert, lookup-insert, lookup-insert_self}
use locksmith.Initflow.Agents.{Files, Faults, read_existing, append_text, append_if_absent}

-- The content at a path, empty if there is no file.
unfoldable pub text_at : Text → Files → Text
text_at path files = elim (lookup path files) [ none ↦ [] | some content ↦ content ]

-- What an append that succeeds comes to.
pub record IsAppended (faults : Faults) (path content marker : Text) (files files' : Files)
    : Type 0 where
  pub marked : contains (text_at path files') marker ≡ true
  pub kept : (rest : Text) × (text_at path files' ≡ text_at path files ++ rest)
  pub others : (q : Text) → q ≢ path → lookup q files' ≡ lookup q files
  pub again : append_if_absent faults path content marker files' ≡ (files', ok tt)

module _ (faults : Faults) (path content marker : Text) where
  readable :
      (files : Files)
      → faults.no_read path ≡ false
      → read_existing faults path files ≡ ok (text_at path files)
  unfolding read_existing text_at
  readable files h = elim (Option-cases (lookup path files)) [
    | inl e ↦ rw (e, read_existing, text_at) refl
    | inr (t, e) ↦ rw (e, read_existing, text_at) (rw h refl)
  ]

  marked_again :
      (files : Files)
      → faults.no_read path ≡ false
      → contains (text_at path files) marker ≡ true
      → append_if_absent faults path content marker files ≡ (files, ok tt)
  unfolding append_if_absent
  marked_again files h m = rw (readable files h, append_if_absent) (rw m refl)

  appended : (files : Files) → Text
  appended files =
      text_at path files
      ++ ((if is_empty (text_at path files) then [] else 10 ∷ 10 ∷ []) ++ content)

  text_at-insert : (files : Files) (t : Text) → text_at path (insert path t files) ≡ t
  unfolding text_at
  text_at-insert files t = rw (lookup-insert_self path t files, text_at) refl

  other_path : (q : Text) → q ≢ path → text_eq path q ≡ false
  other_path q other = ground (arith, text_eq_iff path q)

  written-IsAppended :
      (files : Files)
      → faults.no_read path ≡ false
      → contains content marker ≡ true
      → IsAppended faults path content marker files (insert path (appended files) files)
  unfolding appended
  written-IsAppended files h m =
      let new : Text =
        text_at path files
        ++ ((if is_empty (text_at path files) then [] else 10 ∷ 10 ∷ []) ++ content) in
      let at : text_at path (insert path new files) ≡ new = text_at-insert files new in
      let marked : contains (text_at path (insert path new files)) marker ≡ true = rw at (
        contains-append_right (text_at path files) _ marker
          (contains-append_right _ content marker m)) in
      record {
        marked = marked;
        kept = (_, at);
        others = λ q other. lookup-insert path q new files ∙ rw (other_path q other) refl;
        again = marked_again (insert path new files) h marked;
      }

  unmarked :
      (files : Files)
      → faults.no_read path ≡ false
      → contains (text_at path files) marker ≡ false
      → append_if_absent faults path content marker files
        ≡ append_text faults path (text_at path files) content files
  unfolding append_if_absent
  unmarked files h m = rw (readable files h, append_if_absent) (rw m refl)

  added :
      (files : Files)
      → (append_text faults path (text_at path files) content files).1 ≡ ok tt
      → text_at path (append_text faults path (text_at path files) content files).0 ≡ appended files
  unfolding append_text appended
  added files done = elim (Bool-cases (faults.no_open path)) [
    | inl shut ↦ absurd (cc (rw shut at done))
    | inr opens ↦ elim (Bool-cases (faults.no_write path)) [
      | inl full ↦ absurd (cc (rw full at (rw opens at done)))
      | inr writes ↦ rw opens (rw writes (text_at-insert files (appended files)))
    ]
  ]

  text-IsAppended :
      (files : Files)
      → faults.no_read path ≡ false
      → contains content marker ≡ true
      → (append_text faults path (text_at path files) content files).1 ≡ ok tt
      → IsAppended faults path content marker files
          (append_text faults path (text_at path files) content files).0
  unfolding append_text
  text-IsAppended files h m done = elim (Bool-cases (faults.no_open path)) [
    | inl shut ↦ absurd (cc (rw shut at done))
    | inr opens ↦ elim (Bool-cases (faults.no_write path)) [
      | inl full ↦ absurd (cc (rw full at (rw opens at done)))
      | inr writes ↦ rw opens (rw writes (unfold appended in written-IsAppended files h m))
    ]
  ]

  -- After `appendIfAbsent` has succeeded on a file that can be read, with a content that has the marker in
  -- it, the file has the marker in it and begins with what it held before, no other file has changed,
  -- and a second call succeeds and changes nothing.
  pub append_if_absent-IsAppended :
      (files : Files)
      → faults.no_read path ≡ false
      → contains content marker ≡ true
      → (append_if_absent faults path content marker files).1 ≡ ok tt
      → IsAppended faults path content marker files
          (append_if_absent faults path content marker files).0
  append_if_absent-IsAppended files h m done =
      elim (Bool-cases (contains (text_at path files) marker)) [
        | inl there ↦
            subst (λ r. IsAppended faults path content marker files r.0)
              (sym (marked_again files h there))
              (record {
                marked = there;
                kept = ([], sym (append-nil (text_at path files)));
                others = λ q other. refl;
                again = marked_again files h there;
              })
        | inr absent ↦
            let e = unmarked files h absent in
            subst (λ r. IsAppended faults path content marker files r.0) (sym e)
              (text-IsAppended files h m (ap (λ r. r.1) (sym e) ∙ done))
      ]

  -- Exactly what the file holds then: what it held, and behind it, if it did not have the marker, the
  -- content, after an empty line if there was anything before it.
  pub append_if_absent_text :
      (files : Files)
      → faults.no_read path ≡ false
      → (append_if_absent faults path content marker files).1 ≡ ok tt
      → text_at path (append_if_absent faults path content marker files).0 ≡ (
          if contains (text_at path files) marker
          then text_at path files
          else text_at path files
            ++ ((if is_empty (text_at path files) then [] else 10 ∷ 10 ∷ []) ++ content))
  unfolding appended
  append_if_absent_text files h done = elim (Bool-cases (contains (text_at path files) marker)) [
    | inl there ↦ ap (λ r. text_at path r.0) (marked_again files h there) ∙ rw there refl
    | inr absent ↦
        ap (λ r. text_at path r.0) (unmarked files h absent)
        ∙ added files (ap (λ r. r.1) (sym (unmarked files h absent)) ∙ done)
        ∙ rw absent refl
  ]
