-- ===== src/Daemon/Plugins/Syncing.antt =====
-- Which plugins run after syncPlugins of internal/daemon/daemon.go.
use locksmith.Common.{
  ◌≡◌, ◌∙◌, refl, ap, sym, subst, Bool, true, false, not, ◌&&◌, ◌||◌, [], ◌∷◌, inl, inr, Option,
  none, some, ok, arith, if◌then◌else◌, Bool-cases, Option-cases, Result-cases,
}
use locksmith.Common.Text.{Text, text_eq, text_eq_iff}
use locksmith.Common.Assoc.{Map, lookup, lookup-delete}
use locksmith.Plugin.Compat.{CompatValidator}
use locksmith.Plugin.Manager.{Manager, Outcome, launch, kill_one, kill_client}
use locksmith.Plugin.Manager.Launching.{Launched, launch-Launched}
use locksmith.Config.{Config}
use locksmith.Daemon.Plugins.{
  launch_found, and_then, launch_new, kill_old, sync_plugins, vault_type_set,
}

abbrev pub is_some {ℓ} : {A : Type ℓ} → Option A → Bool
is_some none = false
is_some (some a) = true

-- The Boolean steps of the two loops: `e` says that the type at hand is the one asked about.
kept :
    (r e h n : Bool)
    → (e ≡ true → n ≡ true)
    → (r && not (h && not n)) ≡ (r && not ((e || h) && not n))
kept r e h n w = ground arith

killed :
    (r e h n : Bool)
    → (e ≡ true → n ≡ false)
    → ((r && not e) && not (h && not n)) ≡ (r && not ((e || h) && not n))
killed r e h n w = ground arith

abbrev pub has : Text → Map (Unit {0}) → Bool
has t types = is_some (lookup t types)

pub has-cons :
    (t k : Text) (u : Unit {0}) (types : Map (Unit {0}))
    → has k ((t, u) ∷ types) ≡ (text_eq t k || has k types)
unfolding lookup
has-cons t k u types = ground arith

pub nil-has : (k : Text) → has k [] ≡ false
unfolding lookup
nil-has k = refl

pub has_same :
    (t k : Text) (types : Map (Unit {0})) (b : Bool)
    → has t types ≡ b
    → text_eq t k ≡ true
    → has k types ≡ b
has_same t k types b e same = ap (λ x. has x types) (sym ((text_eq_iff t k).0 same)) ∙ e

module _ {P : Type 0} where
  -- The plugin of this type runs.
  abbrev pub runs : Text → Manager P → Bool
  runs t m = is_some (lookup t m.plugins)

  kill_one-runs :
      (t k : Text) (m : Manager P) → runs k (kill_one t m) ≡ (runs k m && not (text_eq t k))
  unfolding kill_one kill_client
  kill_one-runs t k m = elim (Option-cases (lookup t m.plugins)) [
    | inl gone ↦
        rw (gone, kill_one)
          (elim (Bool-cases (text_eq t k)) [
            | inr other ↦ rw other (ground arith)
            | inl same ↦
                let k_gone : lookup k m.plugins ≡ none =
                  subst (λ x. lookup x m.plugins ≡ none) ((text_eq_iff t k).0 same) gone in
                rw (k_gone)
          ])
    | inr (rp, there) ↦ rw (there, kill_one) (rw (lookup-delete t k m.plugins) (ground arith))
  ]

  Launched-runs :
      (t k : Text) (m m' : Manager P) → Launched t m m' → runs k m' ≡ (runs k m || text_eq t k)
  Launched-runs t k m m' a = rw (a.plugins_after k) (ground arith)

  -- The loop over the old types kills those that are not new, and no others.
  kill_old-runs :
      (new_types types : Map (Unit {0})) (k : Text) (m : Manager P)
      → runs k (kill_old new_types types m)
        ≡ (runs k m && not (has k types && not (has k new_types)))
  unfolding kill_old
  kill_old-runs new_types [] k m = rw (nil-has k) (ground arith)
  kill_old-runs new_types ((t, u) ∷ rest) k m =
      rw (has-cons t k u rest) (elim (Option-cases (lookup t new_types)) [
        | inr (u', wanted) ↦
            rw (wanted, kill_old)
              (kill_old-runs new_types rest k m
                ∙ kept (runs k m) (text_eq t k) (has k rest) (has k new_types)
                    (has_same t k new_types true (ap is_some wanted)))
        | inl unwanted ↦
            rw (unwanted, kill_old)
              (kill_old-runs new_types rest k (kill_one t m)
                ∙ ap (λ b. b && not (has k rest && not (has k new_types))) (kill_one-runs t k m)
                ∙ killed (runs k m) (text_eq t k) (has k rest) (has k new_types)
                    (has_same t k new_types false (ap is_some unwanted)))
      ])

skipped :
    (r e h o f : Bool)
    → (e ≡ true → o ≡ true)
    → (r || (h && (not o && f))) ≡ (r || ((e || h) && (not o && f)))
skipped r e h o f w = ground arith

started :
    (r e h o f g : Bool)
    → (e ≡ true → o ≡ false)
    → (e ≡ true → g ≡ f)
    → ((r || (e && g)) || (h && (not o && f))) ≡ (r || ((e || h) && (not o && f)))
started r e h o f g w x = ground arith

module _ {P : Type 0} (v : CompatValidator) (launcher : Text → Outcome P)
    (discovered : Map Text) where
  -- A binary for this type has been found.
  abbrev pub found : Text → Bool
  found t = is_some (lookup t discovered)

  pub launch_found-runs :
      (t k : Text) (m : Manager P)
      → (launch_found v launcher discovered t m).1 ≡ ok tt
      → runs k (launch_found v launcher discovered t m).0 ≡ (runs k m || (text_eq t k && found t))
  unfolding launch_found
  launch_found-runs t k m h = elim (Option-cases (lookup t discovered)) [
    | inl none_found ↦ rw (none_found, launch_found) (ground arith)
    | inr (b, e) ↦ elim (Result-cases (launch v launcher t b m).1) [
      | inr (x, failed) ↦ absurd (cc (rw (failed, launch_found) at (rw (e, launch_found) at h)))
      | inl (u, done) ↦
          rw (e, launch_found)
            (Launched-runs t k m (launch v launcher t b m).0 (launch-Launched v launcher t b m done)
              ∙ ground arith)
    ]
  ]

  launch_new-runs :
      (old_types types : Map (Unit {0})) (k : Text) (m : Manager P)
      → (launch_new v launcher discovered old_types types m).1 ≡ ok tt
      → runs k (launch_new v launcher discovered old_types types m).0
        ≡ (runs k m || (has k types && (not (has k old_types) && found k)))
  unfolding launch_new and_then
  launch_new-runs old_types [] k m h = rw (nil-has k) (ground arith)
  launch_new-runs old_types ((t, u) ∷ rest) k m h =
      rw (has-cons t k u rest) (elim (Option-cases (lookup t old_types)) [
        | inr (u', was) ↦
            rw (was, launch_new)
              (launch_new-runs old_types rest k m (rw (was, launch_new) at h)
                ∙ skipped (runs k m) (text_eq t k) (has k rest) (has k old_types) (found k)
                    (has_same t k old_types true (ap is_some was)))
        | inl new ↦ elim (Result-cases (launch_found v launcher discovered t m).1) [
          | inr (x, failed) ↦ absurd (cc (rw (failed, and_then) at (rw (new, launch_new) at h)))
          | inl (w, done) ↦
              let m' = (launch_found v launcher discovered t m).0 in
              let h' : (launch_new v launcher discovered old_types rest m').1 ≡ ok tt =
                rw (done, and_then) at (rw (new, launch_new) at h) in
              rw (new, launch_new)
                (rw (done, and_then)
                  (launch_new-runs old_types rest k m' h'
                    ∙ ap (λ b. b || (has k rest && (not (has k old_types) && found k)))
                        (launch_found-runs t k m done)
                    ∙ started (runs k m) (text_eq t k) (has k rest) (has k old_types) (found k)
                        (found t) (has_same t k old_types false (ap is_some new))
                        (λ same. ap found ((text_eq_iff t k).0 same))))
        ]
      ])

  -- After a successful sync, a type of the new configuration alone runs if it ran or its binary was
  -- found, a type of the old configuration alone does not run, and any other type runs as before.
  pub sync_plugins-runs :
      (old new : Config) (k : Text) (m : Manager P)
      → (sync_plugins v launcher discovered old new m).1 ≡ ok tt
      → runs k (sync_plugins v launcher discovered old new m).0 ≡ (
          if has k (vault_type_set new)
          then (if has k (vault_type_set old) then runs k m else runs k m || found k)
          else (if has k (vault_type_set old) then false else runs k m))
  unfolding sync_plugins and_then
  sync_plugins-runs old new k m h =
      let o = vault_type_set old in
      let n = vault_type_set new in
      elim (Result-cases (launch_new v launcher discovered o n m).1) [
        | inr (x, failed) ↦ absurd (cc (rw (failed, and_then) at h))
        | inl (w, done) ↦
            rw (done, and_then)
              (kill_old-runs n o k (launch_new v launcher discovered o n m).0
                ∙ rw (launch_new-runs o n k m done) (ground arith))
      ]
