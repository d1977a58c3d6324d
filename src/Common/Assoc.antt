-- ===== src/Common/Assoc.antt =====
-- Go maps with string keys as association lists. The order of the list is the order in which a
-- `range` loop meets the entries; Go leaves that order open, so theorems hold for every order.
use locksmith.Common.{
  ◌≡◌, refl, ◌∙◌, subst, inl, inr, false, List, [], ◌∷◌, Option, none, some, arith, if◌then◌else◌,
  Bool-cases,
}
use locksmith.Common.Text.{Text, text_eq, text_eq_iff, text_eq_refl, text_eq_sym}

abbrev pub Map {ℓ} : Type ℓ → Type ℓ
Map V = List (Text × V)

module _ {ℓ} {V : Type ℓ} where
  -- `v, ok := m[k]`.
  unfoldable pub lookup : Text → Map V → Option V
  lookup k [] = none
  lookup k ((j, v) ∷ m) = if text_eq j k then some v else lookup k m

  -- `m[k] = v`.
  unfoldable pub insert : Text → V → Map V → Map V
  insert k v [] = (k, v) ∷ []
  insert k v ((j, w) ∷ m) = if text_eq j k then (k, v) ∷ m else (j, w) ∷ insert k v m

  -- `delete(m, k)`.
  unfoldable pub delete : Text → Map V → Map V
  delete k [] = []
  delete k ((j, v) ∷ m) = let rest = delete k m in if text_eq j k then rest else (j, v) ∷ rest

  pub lookup-insert :
      (k j : Text) (v : V) (m : Map V)
      → lookup j (insert k v m) ≡ (if text_eq k j then some v else lookup j m)
  unfolding lookup insert
  lookup-insert k j v [] = refl
  lookup-insert k j v ((i, w) ∷ m) =
      ground (arith, text_eq_iff k j, text_eq_iff i k, text_eq_iff i j, lookup-insert k j v m)

  pub lookup-delete :
      (k j : Text) (m : Map V) → lookup j (delete k m) ≡ (if text_eq k j then none else lookup j m)
  unfolding lookup delete
  lookup-delete k j [] = ground arith
  lookup-delete k j ((i, v) ∷ m) =
      ground (arith, lookup-delete k j m, text_eq_iff i k, text_eq_iff i j, text_eq_iff k j)

  pub lookup-insert_self : (k : Text) (v : V) (m : Map V) → lookup k (insert k v m) ≡ some v
  lookup-insert_self k v m = rw (lookup-insert, text_eq_refl)

  pub lookup-delete_self : (k : Text) (m : Map V) → lookup k (delete k m) ≡ none
  lookup-delete_self k m = rw (lookup-delete, text_eq_refl)

-- The keys of a Go map are distinct.
module _ {ℓ} {V : Type ℓ} where
  abbrev pub HasNoKey : Text → Map V → Type 0
  HasNoKey k [] = Unit
  HasNoKey k ((j, v) ∷ m) = (text_eq j k ≡ false) × HasNoKey k m

  abbrev pub DistinctKeys : Map V → Type 0
  DistinctKeys [] = Unit
  DistinctKeys ((k, v) ∷ m) = HasNoKey k m × DistinctKeys m

  pub HasNoKey-delete : (k j : Text) (m : Map V) → HasNoKey j m → HasNoKey j (delete k m)
  unfolding delete
  HasNoKey-delete k j [] h = tt
  HasNoKey-delete k j ((i, v) ∷ m) h = ground (arith, HasNoKey-delete k j m h.1)

  pub DistinctKeys-delete : (k : Text) (m : Map V) → DistinctKeys m → DistinctKeys (delete k m)
  unfolding delete
  DistinctKeys-delete k [] h = tt
  DistinctKeys-delete k ((i, v) ∷ m) h =
      ground (arith, HasNoKey-delete k i m h.0, DistinctKeys-delete k m h.1)

  pub HasNoKey-insert :
      (k j : Text) (v : V) (m : Map V)
      → text_eq k j ≡ false
      → HasNoKey j m
      → HasNoKey j (insert k v m)
  unfolding insert
  HasNoKey-insert k j v [] e h = (e, tt)
  HasNoKey-insert k j v ((i, w) ∷ m) e h = ground (arith, HasNoKey-insert k j v m e h.1)

  pub DistinctKeys-insert :
      (k : Text) (v : V) (m : Map V) → DistinctKeys m → DistinctKeys (insert k v m)
  unfolding insert
  DistinctKeys-insert k v [] h = (tt, tt)
  DistinctKeys-insert k v ((i, w) ∷ m) h = elim (Bool-cases (text_eq i k)) [
    | inl e ↦ rw e (subst (λ z. HasNoKey z m) ((text_eq_iff i k).0 e) h.0, h.1)
    | inr e ↦
        rw e (HasNoKey-insert k i v m (text_eq_sym k i ∙ e) h.0, DistinctKeys-insert k v m h.1)
  ]

  pub HasNoKey-lookup : (k : Text) (m : Map V) → HasNoKey k m → lookup k m ≡ none
  unfolding lookup
  HasNoKey-lookup k [] h = refl
  HasNoKey-lookup k ((j, v) ∷ m) h = ground (arith, HasNoKey-lookup k m h.1)

  pub HasNoKey-delete_none : (k : Text) (m : Map V) → HasNoKey k m → delete k m ≡ m
  unfolding delete
  HasNoKey-delete_none k [] h = refl
  HasNoKey-delete_none k ((j, v) ∷ m) h = rw (h.0, HasNoKey-delete_none k m h.1)

  pub lookup-cons_self : (k : Text) (v : V) (m : Map V) → lookup k ((k, v) ∷ m) ≡ some v
  unfolding lookup
  lookup-cons_self k v m = rw text_eq_refl

  pub delete-cons_self : (k : Text) (v : V) (m : Map V) → HasNoKey k m → delete k ((k, v) ∷ m) ≡ m
  unfolding delete
  delete-cons_self k v m h = rw text_eq_refl (HasNoKey-delete_none k m h)
