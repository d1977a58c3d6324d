-- ===== src/Initflow/Sandbox.antt =====
-- internal/initflow/sandbox.go: the permissions in Claude Code's settings.json. The file is the JSON
-- object that it holds, or none where it is missing, malformed or null.
use locksmith.Common.{
  ◌≡◌, ◌≢◌, ◌∙◌, refl, ap, subst, Bool, true, false, ◌||◌, List, [], ◌∷◌, inl, inr, Option, some,
  Result, ok, err, arith, All, if◌then◌else◌, Bool-cases,
}
use locksmith.Common.Text.{Text, codes, text_eq, text_eq_iff, text_eq_refl}
use locksmith.Initflow.Json.{
  Json, string, array, object, Items, no_items, item, Members, get_member, set_member,
  object_or_new, items_or_nil, is_string, append_item, get-set_member, get-set_member_self,
  set_member_same,
}
use locksmith.Initflow.Hooks.{settings_or_new}

pub data Error : Type 0 where
  no_write : Error

abbrev pub locksmith_allow_list : List Text
locksmith_allow_list =
    codes "Bash(locksmith get *)"
    ∷ codes "Bash(locksmith session start *)"
    ∷ codes "Bash(locksmith session end)"
    ∷ codes "Bash(locksmith vault list)"
    ∷ codes "Bash(locksmith vault health)"
    ∷ []

-- existing[perm], for the set of the strings in the list.
unfoldable pub has_item : Text → Items → Bool
has_item perm no_items = false
has_item perm (item x xs) = is_string perm x || has_item perm xs

-- The loop over the permissions; `existing` is the list before it.
unfoldable pub add_missing : List Text → Items → Items → Items
add_missing [] existing allow_list = allow_list
add_missing (perm ∷ perms) existing allow_list =
    add_missing perms existing
      (if has_item perm existing then allow_list else append_item allow_list (string perm))

-- The allowlist of some settings.
unfoldable pub allow_list_of : Members → Items
allow_list_of settings =
    items_or_nil
      (get_member (codes "allow") (object_or_new (get_member (codes "permissions") settings)))

unfoldable pub allow_all : List Text → Members → Members
allow_all perms settings =
    let old = object_or_new (get_member (codes "permissions") settings) in
    let allow_list = allow_list_of settings in
    set_member (codes "permissions")
      (object (set_member (codes "allow") (array (add_missing perms allow_list allow_list)) old))
      settings

-- installClaudeSandbox. The Boolean says whether the file is written.
unfoldable pub install_claude_sandbox :
    Bool → Option Members → Option Members × Result Error (Unit {0})
install_claude_sandbox written file =
    if written
    then (some (allow_all locksmith_allow_list (settings_or_new file)), ok tt)
    else (file, err no_write)

has_item-append_item :
    (p : Text) (xs : Items) (v : Json)
    → has_item p (append_item xs v) ≡ (has_item p xs || is_string p v)
unfolding has_item append_item
has_item-append_item p no_items v = ground arith
has_item-append_item p (item x xs) v = rw (has_item-append_item p xs v) (ground arith)

-- What is in the list stays in it.
add_missing-keeps :
    (p : Text) (perms : List Text) (existing xs : Items)
    → has_item p xs ≡ true
    → has_item p (add_missing perms existing xs) ≡ true
unfolding add_missing
add_missing-keeps p [] existing xs h = h
add_missing-keeps p (q ∷ perms) existing xs h = elim (Bool-cases (has_item q existing)) [
  | inl there ↦ rw there (add_missing-keeps p perms existing xs h)
  | inr new ↦ rw new (
      add_missing-keeps p perms existing (append_item xs (string q))
        (rw (has_item-append_item p xs (string q)) (ground arith)))
]

add_missing-All :
    (perms : List Text) (existing xs : Items)
    → ((p : Text) → has_item p existing ≡ true → has_item p xs ≡ true)
    → All (λ p. has_item p (add_missing perms existing xs) ≡ true) perms
unfolding add_missing
add_missing-All [] existing xs h = tt
add_missing-All (q ∷ perms) existing xs h = elim (Bool-cases (has_item q existing)) [
  | inl there ↦
      let step : add_missing perms existing xs ≡ add_missing (q ∷ perms) existing xs =
        rw there refl in
      subst (λ r. All (λ p. has_item p r ≡ true) (q ∷ perms)) step
        (add_missing-keeps q perms existing xs (h q there), add_missing-All perms existing xs h)
  | inr new ↦
      let added : has_item q (append_item xs (string q)) ≡ true =
        rw (has_item-append_item q xs (string q))
          (unfold is_string in rw (text_eq_refl) (ground arith)) in
      let step : add_missing perms existing (append_item xs (string q))
          ≡ add_missing (q ∷ perms) existing xs =
        rw new refl in
      subst (λ r. All (λ p. has_item p r ≡ true) (q ∷ perms)) step
        (
          add_missing-keeps q perms existing (append_item xs (string q)) added,
          add_missing-All perms existing (append_item xs (string q))
              (λ p e. rw (has_item-append_item p xs (string q)) (rw (h p e) refl)),
        )
]

add_missing-none :
    (perms : List Text) (existing xs : Items)
    → All (λ p. has_item p existing ≡ true) perms
    → add_missing perms existing xs ≡ xs
unfolding add_missing
add_missing-none [] existing xs h = refl
add_missing-none (q ∷ perms) existing xs h = rw h.0 (add_missing-none perms existing xs h.1)

allow_list-allow_all :
    (perms : List Text) (settings : Members)
    → allow_list_of (allow_all perms settings)
      ≡ add_missing perms (allow_list_of settings) (allow_list_of settings)
unfolding allow_list_of allow_all
allow_list-allow_all perms settings =
    rw get-set_member_self
      (unfold object_or_new in rw get-set_member_self (unfold items_or_nil in refl))

allow_all-All :
    (perms : List Text) (settings : Members)
    → All (λ p. has_item p (allow_list_of (allow_all perms settings)) ≡ true) perms
allow_all-All perms settings =
    rw (allow_list-allow_all perms settings)
      (add_missing-All perms (allow_list_of settings) (allow_list_of settings) (λ p h. h))

allow_all_idem :
    (perms : List Text) (settings : Members)
    → allow_all perms (allow_all perms settings) ≡ allow_all perms settings
unfolding allow_all
allow_all_idem perms settings =
    let s' = allow_all perms settings in
    let l' = allow_list_of s' in
    let m = add_missing perms (allow_list_of settings) (allow_list_of settings) in
    let old = object_or_new (get_member (codes "permissions") settings) in
    let obj = object (set_member (codes "allow") (array m) old) in
    let same_list : add_missing perms l' l' ≡ m =
      add_missing-none perms l' l' (allow_all-All perms settings)
      ∙ allow_list-allow_all perms settings in
    let same_perms : object_or_new (get_member (codes "permissions") s')
        ≡ set_member (codes "allow") (array m) old =
      rw get-set_member_self (unfold object_or_new in refl) in
    ap
      (λ l.
        set_member (codes "permissions")
          (object (
            set_member (codes "allow") (array l)
              (object_or_new (get_member (codes "permissions") s'))))
          s')
      same_list
    ∙ ap
        (λ o. set_member (codes "permissions") (object (set_member (codes "allow") (array m) o)) s')
        same_perms
    ∙ ap (λ o. set_member (codes "permissions") (object o) s')
        (set_member_same (codes "allow") (array m) old)
    ∙ set_member_same (codes "permissions") obj settings

-- Each permission is allowed, what was allowed still is, and the other settings are as they were.
pub record IsAllowed (perms : List Text) (settings settings' : Members) : Type 0 where
  pub allowed : All (λ p. has_item p (allow_list_of settings') ≡ true) perms
  pub kept :
      (p : Text)
      → has_item p (allow_list_of settings) ≡ true
      → has_item p (allow_list_of settings') ≡ true
  pub others :
      (key : Text) → key ≢ codes "permissions" → get_member key settings' ≡ get_member key settings

allow_all-IsAllowed :
    (perms : List Text) (settings : Members) → IsAllowed perms settings (allow_all perms settings)
allow_all-IsAllowed perms settings = record {
  allowed = allow_all-All perms settings;
  kept = λ p h.
      rw (allow_list-allow_all perms settings)
        (add_missing-keeps p perms (allow_list_of settings) (allow_list_of settings) h);
  others = λ key other.
      unfold allow_all in rw (get-set_member, other_key (codes "permissions") key other);
}
  where
    other_key : (key k : Text) → k ≢ key → text_eq key k ≡ false
    other_key key k other = ground (arith, text_eq_iff key k)

-- After `installClaudeSandbox` has succeeded the allowlist holds each of Locksmith's permissions and
-- every string that it held, every setting but "permissions" is as it was, and installing again comes
-- to the same.
pub install_claude_sandbox-IsAllowed :
    (written : Bool) (file : Option Members)
    → (install_claude_sandbox written file).1 ≡ ok tt
    → IsAllowed locksmith_allow_list
        (settings_or_new file)
        (settings_or_new (install_claude_sandbox written file).0)
      × (install_claude_sandbox written (install_claude_sandbox written file).0
          ≡ install_claude_sandbox written file)
unfolding install_claude_sandbox
install_claude_sandbox-IsAllowed false file h = absurd (cc)
install_claude_sandbox-IsAllowed true file h =
    let settings = settings_or_new file in
    let twice : allow_all locksmith_allow_list
          (settings_or_new (some (allow_all locksmith_allow_list settings)))
        ≡ allow_all locksmith_allow_list settings =
      unfold settings_or_new in allow_all_idem locksmith_allow_list settings in
    (
      unfold settings_or_new in allow_all-IsAllowed locksmith_allow_list settings,
      ap (λ x. (some x, ok tt)) twice,
    )
