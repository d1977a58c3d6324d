-- ===== src/Initflow/Json.antt =====
-- Decoded JSON of Go's encoding/json: map[string]any and []any, with the type assertions that the
-- installers of internal/initflow make.
use locksmith.Common.{
  ◌≡◌, refl, ap, Bool, false, inl, inr, Option, none, some, arith, if◌then◌else◌, Bool-cases,
}
use locksmith.Common.Text.{Text, text_eq, text_eq_iff, text_eq_refl}

mutual
  pub data Json : Type 0 where
    null : Json
    boolean : Bool → Json
    number : Text → Json
    string : Text → Json
    array : Items → Json
    object : Members → Json

  pub data Items : Type 0 where
    no_items : Items
    item : Json → Items → Items

  pub data Members : Type 0 where
    no_members : Members
    member : Text → Json → Members → Members

-- m[key], with nil for a missing key; a type assertion on nil fails like one on null.
unfoldable pub get_member : Text → Members → Json
get_member key no_members = null
get_member key (member k v rest) = if text_eq k key then v else get_member key rest

-- m[key] = value
unfoldable pub set_member : Text → Json → Members → Members
set_member key value no_members = member key value no_members
set_member key value (member k v rest) =
    if text_eq k key then member key value rest else member k v (set_member key value rest)

-- v.(map[string]any)
unfoldable pub as_object : Json → Option Members
as_object (object m) = some m
as_object _ = none

-- The object, or a new one.
unfoldable pub object_or_new : Json → Members
object_or_new (object m) = m
object_or_new _ = no_members

-- The array, or nil.
unfoldable pub items_or_nil : Json → Items
items_or_nil (array xs) = xs
items_or_nil _ = no_items

-- v.(string), and whether it is the one asked for.
unfoldable pub is_string : Text → Json → Bool
is_string s (string t) = text_eq t s
is_string s _ = false

-- append(xs, v)
unfoldable pub append_item : Items → Json → Items
append_item no_items v = item v no_items
append_item (item x xs) v = item x (append_item xs v)

pub get-set_member :
    (key k : Text) (value : Json) (m : Members)
    → get_member k (set_member key value m) ≡ (if text_eq key k then value else get_member k m)
unfolding get_member set_member
get-set_member key k value no_members = refl
get-set_member key k value (member j v rest) =
    ground (
      arith,
      text_eq_iff key k,
      text_eq_iff j key,
      text_eq_iff j k,
      get-set_member key k value rest,
    )

pub get-set_member_self :
    (key : Text) (value : Json) (m : Members) → get_member key (set_member key value m) ≡ value
get-set_member_self key value m = rw (get-set_member, text_eq_refl)

-- Setting a key to the value that it has changes nothing.
pub set_member_same :
    (key : Text) (value : Json) (m : Members)
    → set_member key value (set_member key value m) ≡ set_member key value m
unfolding set_member
set_member_same key value no_members = rw text_eq_refl
set_member_same key value (member j v rest) = elim (Bool-cases (text_eq j key)) [
  | inl hit ↦ rw hit (unfold set_member in rw text_eq_refl)
  | inr miss ↦
      rw miss
        (unfold set_member in rw miss (ap (λ x. member j v x) (set_member_same key value rest)))
]
