-- ===== src/Plugin/Manager/Clients.antt =====
-- The processes behind a map of running plugins, for internal/plugin/manager.go.
use locksmith.Common.{
  ℕ, ◌≡◌, ◌≢◌, ◌∙◌, refl, ap, sym, subst, Bool, true, false, ◌||◌, ◌&&◌, not, [], ◌∷◌, inl, inr,
  none, some, arith, ◌==◌, ==_iff, if◌then◌else◌, Bool-cases,
}
use locksmith.Common.Text.{Text, text_eq, text_eq_iff}
use locksmith.Common.Assoc.{
  Map, lookup, insert, delete, DistinctKeys, HasNoKey, HasNoKey-delete_none,
}
use locksmith.Plugin.Manager.{Running}

pub client_gone : (x c : ℕ) (h : Bool) → (x ≡ c → h ≡ false) → h ≡ (not (x == c) && ((x == c) || h))
client_gone x c h n = elim (Bool-cases (x == c)) [
  | inl same ↦ rw (same, n ((==_iff x c).0 same))
  | inr other ↦ rw other
]

pub client_kept :
    (x c d : ℕ) (h h' : Bool)
    → c ≢ d
    → h' ≡ (not (x == d) && h)
    → ((x == c) || h') ≡ (not (x == d) && ((x == c) || h))
client_kept x c d h h' n e = ground arith

pub started_alive : (x c : ℕ) (h : Bool) → (if x == c then true else h) ≡ ((x == c) || h)
started_alive x c h = ground arith

pub killed_alive : (x c : ℕ) (h : Bool) → (if x == c then false else h) ≡ (not (x == c) && h)
killed_alive x c h = ground arith

module _ {P : Type 0} where
  -- Some plugin of the map runs as this process.
  unfoldable pub has_client : ℕ → Map (Running P) → Bool
  has_client x [] = false
  has_client x ((k, rp) ∷ m) = (x == rp.client) || has_client x m

  -- Each process serves one plugin.
  abbrev pub OwnClients : Map (Running P) → Type 0
  OwnClients [] = Unit
  OwnClients ((k, rp) ∷ m) = (has_client rp.client m ≡ false) × OwnClients m

  pub has_client-insert :
      (x : ℕ) (k : Text) (rp : Running P) (m : Map (Running P))
      → lookup k m ≡ none
      → has_client x (insert k rp m) ≡ ((x == rp.client) || has_client x m)
  unfolding has_client insert lookup
  has_client-insert x k rp [] e = refl
  has_client-insert x k rp ((j, w) ∷ m) e = elim (Bool-cases (text_eq j k)) [
    | inl same ↦ absurd (cc (rw same at e))
    | inr other ↦ rw (other, has_client-insert x k rp m (rw other at e)) (ground arith)
  ]

  pub OwnClients-insert :
      (k : Text) (rp : Running P) (m : Map (Running P))
      → lookup k m ≡ none
      → has_client rp.client m ≡ false
      → OwnClients m
      → OwnClients (insert k rp m)
  unfolding insert lookup has_client
  OwnClients-insert k rp [] e n o = (refl, tt)
  OwnClients-insert k rp ((j, w) ∷ m) e n o = elim (Bool-cases (text_eq j k)) [
    | inl same ↦ absurd (cc (rw same at e))
    | inr other ↦
        let e' : lookup k m ≡ none = rw other at e in
        rw other (
          has_client-insert w.client k rp m e' ∙ ground (arith, o.0),
          OwnClients-insert k rp m e' (ground arith) o.1,
        )
  ]

  pub has_client-lookup :
      (k : Text) (rp : Running P) (m : Map (Running P))
      → lookup k m ≡ some rp
      → has_client rp.client m ≡ true
  unfolding has_client lookup
  has_client-lookup k rp [] e = absurd (cc)
  has_client-lookup k rp ((j, w) ∷ m) e = elim (Bool-cases (text_eq j k)) [
    | inl same ↦
        let s : some w ≡ some rp = rw same at e in
        let c : rp.client ≡ w.client = ground arith in ground arith
    | inr other ↦
        let h : has_client rp.client m ≡ true = has_client-lookup k rp m (rw other at e) in
        ground arith
  ]

  -- Taking a plugin out takes its process out, and no other.
  pub has_client-delete :
      (x : ℕ) (k : Text) (rp : Running P) (m : Map (Running P))
      → DistinctKeys m
      → OwnClients m
      → lookup k m ≡ some rp
      → has_client x (delete k m) ≡ (not (x == rp.client) && has_client x m)
  unfolding has_client delete lookup
  has_client-delete x k rp [] d o e = absurd (cc)
  has_client-delete x k rp ((j, w) ∷ m) d o e = elim (Bool-cases (text_eq j k)) [
    | inl same ↦
        let s : w ≡ rp = some_eq w rp (rw same at e) in
        let whole : delete k m ≡ m =
          HasNoKey-delete_none k m (subst (λ t. HasNoKey t m) ((text_eq_iff j k).0 same) d.0) in
        subst
          (λ (r : Running P).
            has_client x (delete k ((j, w) ∷ m))
            ≡ (not (x == r.client) && ((x == w.client) || has_client x m)))
          s
          (rw (same, whole)
            (client_gone x w.client (has_client x m)
              (λ q. subst (λ c. has_client c m ≡ false) (sym q) o.0)))
    | inr other ↦
        let e' : lookup k m ≡ some rp = rw other at e in
        rw other (
          client_kept x w.client rp.client (has_client x m) (has_client x (delete k m))
            (λ q. cc (has_client-lookup k rp m e', ap (λ c. has_client c m) q))
            (has_client-delete x k rp m d.1 o.1 e'))
  ]
    where
      some_eq : (a b : Running P) → some a ≡ some b → a ≡ b
      some_eq a b q = cc

  pub no_client-delete :
      (k : Text) (x : ℕ) (m : Map (Running P))
      → has_client x m ≡ false
      → has_client x (delete k m) ≡ false
  unfolding delete has_client
  no_client-delete k x [] h = refl
  no_client-delete k x ((j, w) ∷ m) h = elim (Bool-cases (text_eq j k)) [
    | inl same ↦ rw same (no_client-delete k x m (ground arith))
    | inr other ↦
        let t : (x == w.client) ≡ false = ground arith in
        rw (other, t) (no_client-delete k x m (ground arith))
  ]

  pub OwnClients-delete : (k : Text) (m : Map (Running P)) → OwnClients m → OwnClients (delete k m)
  unfolding delete
  OwnClients-delete k [] o = tt
  OwnClients-delete k ((j, w) ∷ m) o = elim (Bool-cases (text_eq j k)) [
    | inl same ↦ rw same (OwnClients-delete k m o.1)
    | inr other ↦ rw other (no_client-delete k w.client m o.0, OwnClients-delete k m o.1)
  ]
