-- ===== src/Plugin/Discovery.antt =====
-- Discover of internal/plugin/manager.go. os.ReadDir is the environment: each search directory comes
-- with its entries in order, or none where it cannot be read.
use Prim.Native.Nat.{bit_and}
use locksmith.Common.{
  ℕ, ◌≡◌, ◌∙◌, refl, ap, sym, Bool, true, false, not, ◌&&◌, ◌||◌, List, [], ◌∷◌, inl, inr, Option,
  none, some, arith, ◌==◌, if◌then◌else◌, length, drop, Option-cases,
}
use locksmith.Common.Text.{Text, codes, text_eq, text_eq_iff, has_prefix}
use locksmith.Common.Paths.{join_path}
use locksmith.Common.Assoc.{Map, lookup, insert, lookup-insert}

-- What ReadDir and Info say of a directory entry; no mode where Info fails.
pub record Entry : Type 0 where
  pub name : Text
  pub is_dir : Bool
  pub mode : Option ℕ

pub record Dir : Type 0 where
  pub path : Text
  pub entries : Option (List Entry)

abbrev pub plugin_prefix : Text
plugin_prefix = codes "locksmith-plugin-"

-- info.Mode()&0o111 == 0, or no info at all.
unfoldable pub not_executable : Option ℕ → Bool
not_executable none = true
not_executable (some mode) = bit_and mode 0o111 == 0

-- One round of the loop over the entries of a directory.
unfoldable pub discover_entry : Text → Map Text → Entry → Map Text
discover_entry dir found entry =
    if entry.is_dir || not (has_prefix entry.name plugin_prefix)
    then found
    else let vault_type = drop (length plugin_prefix) entry.name in
      let full_path = join_path dir entry.name in
      if not_executable entry.mode then found else elim (lookup vault_type found) [
        | some there ↦ found
        | none ↦ insert vault_type full_path found
      ]

unfoldable pub discover_entries : Text → Map Text → List Entry → Map Text
discover_entries dir found [] = found
discover_entries dir found (e ∷ es) = discover_entries dir (discover_entry dir found e) es

unfoldable pub discover_dirs : Map Text → List Dir → Map Text
discover_dirs found [] = found
discover_dirs found (d ∷ ds) = elim d.entries [
  | none ↦ discover_dirs found ds
  | some es ↦ discover_dirs (discover_entries d.path found es) ds
]

-- Discover
unfoldable pub discover : List Dir → Map Text
discover search_dirs = discover_dirs [] search_dirs

-- The entry is an executable file that serves this vault type.
unfoldable pub serves : Text → Entry → Bool
serves vault_type entry =
    not entry.is_dir
    && (has_prefix entry.name plugin_prefix
        && (text_eq (drop (length plugin_prefix) entry.name) vault_type
            && not (not_executable entry.mode)))

abbrev or_else {ℓ} : {A : Type ℓ} → Option A → Option A → Option A
or_else (some a) o = some a
or_else none o = o

unfoldable pub first_entry : Text → Text → List Entry → Option Text
first_entry vault_type dir [] = none
first_entry vault_type dir (e ∷ es) =
    if serves vault_type e then some (join_path dir e.name) else first_entry vault_type dir es

-- The first plugin for the vault type, directory by directory.
unfoldable pub first_plugin : Text → List Dir → Option Text
first_plugin vault_type [] = none
first_plugin vault_type (d ∷ ds) = elim d.entries [
  | none ↦ first_plugin vault_type ds
  | some es ↦ or_else (first_entry vault_type d.path es) (first_plugin vault_type ds)
]

or_else_assoc {ℓ} :
    {A : Type ℓ} (a b c : Option A) → or_else (or_else a b) c ≡ or_else a (or_else b c)
or_else_assoc none b c = refl
or_else_assoc (some x) b c = refl

entry_lem :
    (t dir : Text) (found : Map Text) (e : Entry)
    → lookup t (discover_entry dir found e)
      ≡ or_else (lookup t found) (if serves t e then some (join_path dir e.name) else none)
unfolding discover_entry serves
entry_lem t dir found e =
    let k = drop (length plugin_prefix) e.name in
    ground (arith, lookup-insert k t (join_path dir e.name) found, text_eq_iff k t)

or_else-none {ℓ} : {A : Type ℓ} (a : Option A) → or_else a none ≡ a
or_else-none none = refl
or_else-none (some x) = refl

entries_lem :
    (t dir : Text) (found : Map Text) (es : List Entry)
    → lookup t (discover_entries dir found es) ≡ or_else (lookup t found) (first_entry t dir es)
unfolding discover_entries first_entry
entries_lem t dir found [] = sym (or_else-none (lookup t found))
entries_lem t dir found (e ∷ es) =
    entries_lem t dir (discover_entry dir found e) es
    ∙ ap (λ o. or_else o (first_entry t dir es)) (entry_lem t dir found e)
    ∙ or_else_assoc (lookup t found) _ (first_entry t dir es)
    ∙ ap (or_else (lookup t found)) (here (serves t e))
  where
    here :
        (b : Bool)
        → or_else (if b then some (join_path dir e.name) else none) (first_entry t dir es)
          ≡ (if b then some (join_path dir e.name) else first_entry t dir es)
    here true = refl
    here false = refl

dirs_lem :
    (t : Text) (found : Map Text) (ds : List Dir)
    → lookup t (discover_dirs found ds) ≡ or_else (lookup t found) (first_plugin t ds)
unfolding discover_dirs first_plugin
dirs_lem t found [] = sym (or_else-none (lookup t found))
dirs_lem t found (d ∷ ds) = elim (Option-cases d.entries) [
  | inl unreadable ↦ rw (unreadable, discover_dirs, first_plugin) (dirs_lem t found ds)
  | inr (es, e) ↦
      rw (e, discover_dirs, first_plugin)
        (dirs_lem t (discover_entries d.path found es) ds
          ∙ ap (λ o. or_else o (first_plugin t ds)) (entries_lem t d.path found es)
          ∙ or_else_assoc (lookup t found) (first_entry t d.path es) (first_plugin t ds))
]

-- `Discover` maps each vault type to the first executable file of that name that a walk through the
-- directories in order meets, and to nothing if there is none: unreadable directories are skipped.
pub lookup-discover :
    (vault_type : Text) (dirs : List Dir)
    → lookup vault_type (discover dirs) ≡ first_plugin vault_type dirs
unfolding discover
lookup-discover t dirs = dirs_lem t [] dirs ∙ (unfold lookup in refl)
