-- ===== src/Initflow/Hooks.antt =====
-- internal/initflow/hooks.go: the hook in Claude Code's settings.json. The file is the JSON object
-- that it holds, or none where it is missing, malformed or null; the hook's command is a path.
use locksmith.Common.{
  ◌≡◌, ◌≢◌, ◌⊎◌, refl, Bool, true, false, ◌||◌, [], inl, inr, Option, none, some, Result, ok, err,
  arith, if◌then◌else◌, Bool-cases,
}
use locksmith.Common.Text.{Text, codes, text_eq, text_eq_iff, text_eq_refl}
use locksmith.Initflow.Json.{
  Json, string, array, object, Items, no_items, item, Members, no_members, member, get_member,
  set_member, object_or_new, items_or_nil, is_string, append_item, get-set_member,
  get-set_member_self,
}

pub data Error : Type 0 where
  no_directory : Error
  no_write : Error

-- The inner loop of findHookCmd, over the hooks of one entry.
unfoldable pub is_command : Text → Json → Bool
is_command cmd (object m) = is_string cmd (get_member (codes "command") m)
is_command cmd _ = false

unfoldable pub find_command : Text → Items → Bool
find_command cmd no_items = false
find_command cmd (item h hs) = is_command cmd h || find_command cmd hs

-- One entry of UserPromptSubmit.
unfoldable pub has_command : Text → Json → Bool
has_command cmd (object m) = find_command cmd (items_or_nil (get_member (codes "hooks") m))
has_command cmd _ = false

unfoldable pub find_entry : Text → Items → Bool
find_entry cmd no_items = false
find_entry cmd (item e es) = has_command cmd e || find_entry cmd es

-- The entries of UserPromptSubmit.
unfoldable pub entries_of : Members → Items
entries_of hooks = items_or_nil (get_member (codes "UserPromptSubmit") hooks)

-- findHookCmd
unfoldable pub find_hook_cmd : Text → Members → Bool
find_hook_cmd cmd settings =
    find_entry cmd (entries_of (object_or_new (get_member (codes "hooks") settings)))

-- The entry that mergeSettings appends.
unfoldable pub hook_entry : Text → Json
hook_entry cmd = object (
    member (codes "matcher") (string []) (
      member (codes "hooks")
        (array (
          item
            (object (
              member (codes "type") (string (codes "command"))
                (member (codes "command") (string cmd) no_members)))
            no_items))
        no_members))

-- The settings with the entry appended.
unfoldable pub add_hook : Text → Members → Members
add_hook cmd settings =
    let hooks = object_or_new (get_member (codes "hooks") settings) in
    let ups = append_item (entries_of hooks) (hook_entry cmd) in
    set_member (codes "hooks") (object (set_member (codes "UserPromptSubmit") (array ups) hooks))
      settings

unfoldable pub settings_or_new : Option Members → Members
settings_or_new none = no_members
settings_or_new (some settings) = settings

-- mergeSettings. The Booleans say whether the directory is made and the file written.
unfoldable pub merge_settings :
    Text → Bool → Bool → Option Members → Option Members × Result Error (Unit {0})
merge_settings cmd made written file =
    let settings = settings_or_new file in
    if made
    then (if find_hook_cmd cmd settings
        then (file, ok tt)
        else if written
        then (some (add_hook cmd settings), ok tt)
        else (file, err no_write))
    else (file, err no_directory)

-- IsInstalled
unfoldable pub is_installed : Text → Option Members → Bool
is_installed cmd none = false
is_installed cmd (some settings) = find_hook_cmd cmd settings

has_command-hook_entry : (cmd : Text) → has_command cmd (hook_entry cmd) ≡ true
unfolding has_command hook_entry get_member items_or_nil find_command is_command is_string text_eq
has_command-hook_entry cmd = rw text_eq_refl refl

find_entry-append :
    (cmd : Text) (es : Items) (e : Json)
    → has_command cmd e ≡ true
    → find_entry cmd (append_item es e) ≡ true
unfolding find_entry append_item
find_entry-append cmd no_items e h = rw h refl
find_entry-append cmd (item x es) e h = rw (find_entry-append cmd es e h) (ground arith)

find-add_hook : (cmd : Text) (settings : Members) → find_hook_cmd cmd (add_hook cmd settings) ≡ true
unfolding find_hook_cmd add_hook entries_of
find-add_hook cmd settings = rw get-set_member_self (
    unfold object_or_new in
    rw get-set_member_self (
      unfold items_or_nil in find_entry-append cmd _ (hook_entry cmd) (has_command-hook_entry cmd)))

-- The entries of UserPromptSubmit in a file.
unfoldable pub prompt_entries : Option Members → Items
prompt_entries file = entries_of (object_or_new (get_member (codes "hooks") (settings_or_new file)))

-- What a merge that succeeds comes to.
pub record IsMerged (cmd : Text) (file file' : Option Members) : Type 0 where
  pub installed : is_installed cmd file' ≡ true
  pub others :
      (key : Text)
      → key ≢ codes "hooks"
      → get_member key (settings_or_new file') ≡ get_member key (settings_or_new file)
  pub entries :
      (prompt_entries file' ≡ prompt_entries file)
      ⊎ (prompt_entries file' ≡ append_item (prompt_entries file) (hook_entry cmd))
  pub again : (made written : Bool) → (merge_settings cmd made written file').0 ≡ file'

pub installed_again :
    (cmd : Text) (settings : Members) (made written : Bool)
    → find_hook_cmd cmd settings ≡ true
    → (merge_settings cmd made written (some settings)).0 ≡ some settings
unfolding merge_settings settings_or_new
installed_again cmd settings true written h = rw h refl
installed_again cmd settings false written h = refl

nothing_found : (cmd : Text) → find_hook_cmd cmd no_members ≡ false
unfolding find_hook_cmd get_member object_or_new entries_of items_or_nil find_entry
nothing_found cmd = refl

other_key : (key k : Text) → k ≢ key → text_eq key k ≡ false
other_key key k other = ground (arith, text_eq_iff key k)

found-IsMerged :
    (cmd : Text) (file : Option Members)
    → find_hook_cmd cmd (settings_or_new file) ≡ true
    → IsMerged cmd file file
unfolding settings_or_new
found-IsMerged cmd none h = absurd (cc (h, nothing_found cmd))
found-IsMerged cmd (some settings) h = record {
  installed = unfold is_installed in h;
  others = λ key other. refl;
  entries = inl refl;
  again = λ made written. installed_again cmd settings made written h;
}

added_entries :
    (cmd : Text) (file : Option Members)
    → prompt_entries (some (add_hook cmd (settings_or_new file)))
      ≡ append_item (prompt_entries file) (hook_entry cmd)
unfolding prompt_entries add_hook entries_of settings_or_new
added_entries cmd file =
    rw get-set_member_self
      (unfold object_or_new in rw get-set_member_self (unfold items_or_nil in refl))

added-IsMerged :
    (cmd : Text) (file : Option Members)
    → IsMerged cmd file (some (add_hook cmd (settings_or_new file)))
unfolding settings_or_new
added-IsMerged cmd file = record {
  installed = unfold is_installed in find-add_hook cmd (settings_or_new file);
  others = λ key other. unfold add_hook in rw (get-set_member, other_key (codes "hooks") key other);
  entries = inr (added_entries cmd file);
  again = λ made written.
      installed_again cmd (add_hook cmd (settings_or_new file)) made written
        (find-add_hook cmd (settings_or_new file));
}

-- After `mergeSettings` has succeeded the hook is installed, every setting but "hooks" is as it was,
-- the entries of UserPromptSubmit are those of before, with the hook's appended if it was not among
-- them, and merging again changes nothing.
pub merge_settings-IsMerged :
    (cmd : Text) (made written : Bool) (file : Option Members)
    → (merge_settings cmd made written file).1 ≡ ok tt
    → IsMerged cmd file (merge_settings cmd made written file).0
unfolding merge_settings
merge_settings-IsMerged cmd false written file h = absurd (cc)
merge_settings-IsMerged cmd true written file h =
    elim (Bool-cases (find_hook_cmd cmd (settings_or_new file))) [
      | inl there ↦ rw (there, merge_settings) (found-IsMerged cmd file there)
      | inr new ↦ elim (Bool-cases written) [
        | inr failed ↦ absurd (cc (rw failed at (rw (new, merge_settings) at h)))
        | inl done ↦ rw (new, merge_settings) (rw done (added-IsMerged cmd file))
      ]
    ]
