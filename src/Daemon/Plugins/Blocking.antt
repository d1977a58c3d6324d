-- ===== src/Daemon/Plugins/Blocking.antt =====
-- A sync of internal/daemon/daemon.go that cannot succeed.
use locksmith.Common.{
  ◌≡◌, ◌≢◌, ◌∙◌, refl, ap, Bool, true, false, [], ◌∷◌, inl, inr, some, ok, Bool-cases, Option-cases,
  Result-cases,
}
use locksmith.Common.Text.{Text, text_eq, text_eq_iff}
use locksmith.Common.Assoc.{Map, lookup}
use locksmith.Plugin.Compat.{CompatValidator}
use locksmith.Plugin.Manager.{Manager, Outcome}
use locksmith.Config.{Config}
use locksmith.Daemon.Plugins.{launch_found, and_then, launch_new, sync_plugins, vault_type_set}
use locksmith.Daemon.Plugins.Loading.{found_again}
use locksmith.Daemon.Plugins.Syncing.{
  is_some, has, has-cons, nil-has, has_same, runs, launch_found-runs,
}

module _ {P : Type 0} (v : CompatValidator) (launcher : Text → Outcome P)
    (discovered : Map Text) where
  -- A new type whose plugin runs already makes the sync fail, whatever the launcher does.
  launch_new_stuck :
      (old_types types : Map (Unit {0})) (t b : Text) (m : Manager P)
      → lookup t discovered ≡ some b
      → has t old_types ≡ false
      → has t types ≡ true
      → runs t m ≡ true
      → (launch_new v launcher discovered old_types types m).1 ≢ ok tt
  unfolding launch_new and_then
  launch_new_stuck old_types [] t b m e o n r h = cc (nil-has t)
  launch_new_stuck old_types ((k, u) ∷ rest) t b m e o n r h =
      elim (Option-cases (lookup k old_types)) [
        | inr (u', was) ↦
            let other : text_eq k t ≡ false =
              not_same (text_eq k t)
                (λ same. cc (has_same k t old_types true (ap is_some was) same)) in
            let n' : has t rest ≡ true = rw other at (rw (has-cons k t u rest) at n) in
            launch_new_stuck old_types rest t b m e o n' r (rw (was, launch_new) at h)
        | inl new ↦ elim (Result-cases (launch_found v launcher discovered k m).1) [
          | inr (x, failed) ↦ cc (rw (failed, and_then) at (rw (new, launch_new) at h))
          | inl (w, done) ↦
              let m' = (launch_found v launcher discovered k m).0 in
              let h' : (launch_new v launcher discovered old_types rest m').1 ≡ ok tt =
                rw (done, and_then) at (rw (new, launch_new) at h) in
              elim (Bool-cases (text_eq k t)) [
                | inl same ↦ again k t b m e r done ((text_eq_iff k t).0 same)
                | inr other ↦
                    let n' : has t rest ≡ true = rw other at (rw (has-cons k t u rest) at n) in
                    let r' : runs t m' ≡ true =
                      launch_found-runs v launcher discovered k t m done ∙ rw r in
                    launch_new_stuck old_types rest t b m' e o n' r' h'
              ]
        ]
      ]
    where
      not_same : (b : Bool) → ¬ (b ≡ true) → b ≡ false
      not_same true n = absurd (n refl)
      not_same false n = refl

      again :
          (k t b : Text) (m : Manager P)
          → lookup t discovered ≡ some b
          → runs t m ≡ true
          → (launch_found v launcher discovered k m).1 ≡ ok tt
          → k ≡ t
          → ⊥
      again k t b m e r done same = elim (Option-cases (lookup t m.plugins)) [
        | inl gone ↦ cc (ap is_some gone)
        | inr (rp, there) ↦ cc (
          found_again v launcher discovered t b m rp e there,
          ap (λ x. (launch_found v launcher discovered x m).1) same,
        )
      ]

  pub sync_plugins_stuck :
      (old new : Config) (t b : Text) (m : Manager P)
      → lookup t discovered ≡ some b
      → has t (vault_type_set old) ≡ false
      → has t (vault_type_set new) ≡ true
      → runs t m ≡ true
      → (sync_plugins v launcher discovered old new m).1 ≢ ok tt
  unfolding sync_plugins and_then
  sync_plugins_stuck old new t b m e o n r h =
      let os = vault_type_set old in
      let ns = vault_type_set new in
      elim (Result-cases (launch_new v launcher discovered os ns m).1) [
        | inr (x, failed) ↦ cc (rw (failed, and_then) at h)
        | inl (w, done) ↦ launch_new_stuck os ns t b m e o n r done
      ]
