-- ===== src/Mcp/Transport/Headers.antt =====
-- What copying headers as internal/mcp/transport_http.go does it comes to, key by key.
use locksmith.Common.{
  ◌≡◌, ◌∙◌, refl, ap, sym, inl, inr, List, [], ◌∷◌, Option, none, some, if◌then◌else◌, Bool-cases,
}
use locksmith.Common.Text.{Text, text_eq, text_eq_iff}
use locksmith.Common.Assoc.{
  lookup, insert, lookup-insert, DistinctKeys, DistinctKeys-insert, HasNoKey-lookup,
}
use locksmith.Mcp.Transport.{Header, copy_headers, effective_headers}

unfoldable pub first_of : Option (List Text) → Option (List Text) → Option (List Text)
first_of none d = d
first_of (some v) d = some v

-- The values of a key. The keys of a Go map are distinct; of a list with a key twice the last counts.
unfoldable pub value_of : Text → Header → Option (List Text)
value_of k [] = none
value_of k ((j, vs) ∷ h) = first_of (value_of k h) (if text_eq j k then some vs else none)

-- The values that the resolver gave, if it has given any headers.
unfoldable pub resolved_value : Text → Option Header → Option (List Text)
resolved_value k none = none
resolved_value k (some h) = value_of k h

-- The values of a key in a request: the resolver's, else the static ones, else the fixed ones.
unfoldable pub expected_value : Text → Option Header → Header → Header → Option (List Text)
expected_value k auth static_headers fixed =
    first_of (resolved_value k auth) (first_of (value_of k static_headers) (lookup k fixed))

first_of-none : (v : Option (List Text)) → first_of v none ≡ v
unfolding first_of
first_of-none none = refl
first_of-none (some v) = refl

first_of_assoc :
    (a b c : Option (List Text)) → first_of (first_of a b) c ≡ first_of a (first_of b c)
unfolding first_of
first_of_assoc none b c = refl
first_of_assoc (some v) b c = refl

lookup-copy_headers :
    (k : Text) (from h : Header)
    → lookup k (copy_headers from h) ≡ first_of (value_of k from) (lookup k h)
unfolding copy_headers value_of first_of
lookup-copy_headers k [] h = refl
lookup-copy_headers k ((j, vs) ∷ from) h =
    lookup-copy_headers k from (insert j vs h)
    ∙ ap (λ x. first_of (value_of k from) x) (lookup-insert j k vs h)
    ∙ elim (Bool-cases (text_eq j k)) [
      | inl same ↦ rw same (sym (first_of_assoc (value_of k from) (some vs) (lookup k h)))
      | inr other ↦ rw other (sym (first_of_assoc (value_of k from) none (lookup k h)))
    ]

DistinctKeys-copy_headers : (from h : Header) → DistinctKeys h → DistinctKeys (copy_headers from h)
unfolding copy_headers
DistinctKeys-copy_headers [] h d = d
DistinctKeys-copy_headers ((j, vs) ∷ from) h d =
    DistinctKeys-copy_headers from (insert j vs h) (DistinctKeys-insert j vs h d)

value_of-lookup : (k : Text) (h : Header) → DistinctKeys h → value_of k h ≡ lookup k h
unfolding value_of lookup first_of
value_of-lookup k [] d = refl
value_of-lookup k ((j, vs) ∷ h) d = elim (Bool-cases (text_eq j k)) [
  | inl same ↦
      let gone : lookup k h ≡ none =
        ap (λ x. lookup x h) (sym ((text_eq_iff j k).0 same)) ∙ HasNoKey-lookup j h d.0 in
      rw (same, value_of-lookup k h d.1, gone) refl
  | inr other ↦ rw (other, value_of-lookup k h d.1) (first_of-none (lookup k h))
]

value_of-effective_headers :
    (k : Text) (static_headers : Header) (auth : Option Header)
    → value_of k (effective_headers static_headers auth)
      ≡ first_of (resolved_value k auth) (value_of k static_headers)
unfolding effective_headers resolved_value
value_of-effective_headers k static_headers none =
    value_of-lookup k (copy_headers [] (copy_headers static_headers []))
      (DistinctKeys-copy_headers [] _ (DistinctKeys-copy_headers static_headers [] tt))
    ∙ unfold copy_headers lookup first_of in
      (lookup-copy_headers k static_headers [] ∙ first_of-none (value_of k static_headers))
value_of-effective_headers k static_headers (some h) =
    value_of-lookup k (copy_headers h (copy_headers static_headers []))
      (DistinctKeys-copy_headers h _ (DistinctKeys-copy_headers static_headers [] tt))
    ∙ (lookup-copy_headers k h (copy_headers static_headers [])
        ∙ ap (λ x. first_of (value_of k h) x)
            (lookup-copy_headers k static_headers []
              ∙ (unfold lookup in first_of-none (value_of k static_headers))))

-- What is copied over fixed headers.
pub copied_value :
    (k : Text) (static_headers : Header) (auth : Option Header) (fixed : Header)
    → lookup k (copy_headers (effective_headers static_headers auth) fixed)
      ≡ expected_value k auth static_headers fixed
unfolding expected_value
copied_value k static_headers auth fixed =
    lookup-copy_headers k (effective_headers static_headers auth) fixed
    ∙ ap (λ x. first_of x (lookup k fixed)) (value_of-effective_headers k static_headers auth)
    ∙ first_of_assoc (resolved_value k auth) (value_of k static_headers) (lookup k fixed)
