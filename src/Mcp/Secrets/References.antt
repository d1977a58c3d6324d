-- ===== src/Mcp/Secrets/References.antt =====
-- Which references parseInnerRef of internal/mcp/secrets.go accepts.
use locksmith.Common.{
  ◌≡◌, ◌≢◌, ◌↔◌, ◌⊎◌, refl, ap, sym, subst, true, List, [], ◌∷◌, inl, inr, ok, arith, if◌then◌else◌,
  All, Bool-cases, Result-cases,
}
use locksmith.Common.Text.{Text, codes, text_eq, text_eq_iff, is_empty, is_empty_iff}
use locksmith.Common.Split.{cut}
use locksmith.Common.Words.{fields}
use locksmith.Mcp.Secrets.{SecretRef, no_ref, set_field, parse_fields, is_complete, parse_inner_ref}

-- A key with a value, or a vault or a path.
abbrev pub IsPair : Text → Text → Type 0
IsPair k v = ((k ≡ codes "key") × (v ≢ [])) ⊎ ((k ≡ codes "vault") ⊎ (k ≡ codes "path"))

abbrev pub IsField : Text → Type 0
IsField field = ((cut b':' field).2 ≡ true) × IsPair (cut b':' field).0 (cut b':' field).1

-- The value of the last field of this name, or the default.
unfoldable pub last_value : Text → Text → List Text → Text
last_value name default [] = default
last_value name default (field ∷ rest) =
    last_value name (if text_eq (cut b':' field).0 name then (cut b':' field).1 else default) rest

abbrev updated : Text → Text → SecretRef → SecretRef
updated k v ref = record {
  key_alias = if text_eq k (codes "key") then v else ref.key_alias;
  vault_name = if text_eq k (codes "vault") then v else ref.vault_name;
  path = if text_eq k (codes "path") then v else ref.path;
}

abbrev read_all : List Text → SecretRef → SecretRef
read_all fs ref = record {
  key_alias = last_value (codes "key") ref.key_alias fs;
  vault_name = last_value (codes "vault") ref.vault_name fs;
  path = last_value (codes "path") ref.path fs;
}

set_field-IsPair :
    (k v : Text) (ref : SecretRef) → IsPair k v → set_field k v ref ≡ ok (updated k v ref)
unfolding set_field text_eq is_empty
set_field-IsPair k [] ref (inl (e, ne)) = absurd (ne refl)
set_field-IsPair k (c ∷ v) ref (inl (e, ne)) =
    subst (λ x. set_field x (c ∷ v) ref ≡ ok (updated x (c ∷ v) ref)) (sym e) refl
set_field-IsPair k v ref (inr (inl e)) =
    subst (λ x. set_field x v ref ≡ ok (updated x v ref)) (sym e) refl
set_field-IsPair k v ref (inr (inr e)) =
    subst (λ x. set_field x v ref ≡ ok (updated x v ref)) (sym e) refl

IsPair-set_field : (k v : Text) (ref ref' : SecretRef) → set_field k v ref ≡ ok ref' → IsPair k v
unfolding set_field
IsPair-set_field k v ref ref' e = ground (
  arith,
  is_empty_iff v,
  text_eq_iff k (codes "key"),
  text_eq_iff k (codes "vault"),
  text_eq_iff k (codes "path"),
)

fields-parse :
    (fs : List Text) (ref : SecretRef) → All IsField fs → parse_fields fs ref ≡ ok (read_all fs ref)
unfolding parse_fields last_value
fields-parse [] ref h = refl
fields-parse (f ∷ fs) ref ((found, pair), h) =
    let k = (cut b':' f).0 in
    let v = (cut b':' f).1 in
    rw found (rw (set_field-IsPair k v ref pair) (fields-parse fs (updated k v ref) h))

parse-fields :
    (fs : List Text) (ref ref' : SecretRef) → parse_fields fs ref ≡ ok ref' → All IsField fs
unfolding parse_fields
parse-fields [] ref ref' e = tt
parse-fields (f ∷ fs) ref ref' e =
    let k = (cut b':' f).0 in
    let v = (cut b':' f).1 in
    elim (Bool-cases (cut b':' f).2) [
      | inr no_colon ↦ absurd (cc (rw no_colon at e))
      | inl found ↦ elim (Result-cases (set_field k v ref)) [
        | inr (x, bad) ↦ absurd (cc (rw bad at (rw found at e)))
        | inl (next, set) ↦ (
          (found, IsPair-set_field k v ref next set),
          parse-fields fs next ref' (rw set at (rw found at e)),
        )
      ]
    ]

-- An alias, or both a vault and a path.
abbrev pub IsComplete : SecretRef → Type 0
IsComplete ref = (ref.key_alias ≢ []) ⊎ ((ref.vault_name ≢ []) × (ref.path ≢ []))

is_complete_iff : (ref : SecretRef) → (is_complete ref ≡ true) ↔ IsComplete ref
unfolding is_complete
is_complete_iff ref =
    ground (arith, is_empty_iff ref.key_alias, is_empty_iff ref.vault_name, is_empty_iff ref.path)

-- The reference that the fields of a text name: of fields with one name the last counts.
abbrev pub named : Text → SecretRef
named inner = read_all (fields inner) no_ref

inner_sound :
    (inner : Text) (ref : SecretRef)
    → parse_inner_ref inner ≡ ok ref
    → All IsField (fields inner) × (IsComplete (named inner) × (ref ≡ named inner))
unfolding parse_inner_ref
inner_sound inner ref e = elim (Result-cases (parse_fields (fields inner) no_ref)) [
  | inr (x, bad) ↦ absurd (cc (rw (bad, parse_inner_ref) at e))
  | inl (r, parsed) ↦
      let fs = parse-fields (fields inner) no_ref r parsed in
      let good = fields-parse (fields inner) no_ref fs in
      elim (Bool-cases (is_complete (named inner))) [
        | inr partial ↦ absurd (cc (rw partial at (rw (good, parse_inner_ref) at e)))
        | inl whole ↦ (
          fs,
          (
            (is_complete_iff (named inner)).0 whole,
            cc (rw whole at (rw (good, parse_inner_ref) at e)),
          ),
        )
      ]
]

-- `parseInnerRef` accepts a text exactly when its white-space separated fields are all of the form
-- key:, vault: or path:, the key's value not empty, and they name an alias or else both a vault and a
-- path. It returns the last value of each name. A text that names an alias and a vault is accepted.
pub parse_inner_ref_iff :
    (inner : Text) (ref : SecretRef)
    → (parse_inner_ref inner ≡ ok ref)
      ↔ (All IsField (fields inner) × (IsComplete (named inner) × (ref ≡ named inner)))
unfolding parse_inner_ref
parse_inner_ref_iff inner ref = (
  inner_sound inner ref,
  λ (fs, (whole, e)).
      rw (fields-parse (fields inner) no_ref fs, parse_inner_ref)
        (rw ((is_complete_iff (named inner)).1 whole) (ap (λ x. ok x) (sym e))),
)
