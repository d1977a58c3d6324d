-- ===== src/Daemon/Plugins/Loading.antt =====
-- What loadPlugins of internal/daemon/daemon.go does with vaults that share a plugin.
use locksmith.Common.{
  ◌≡◌, ◌≢◌, ◌∙◌, ap, subst, ◌⊎◌, [], ◌∷◌, inl, inr, some, ok, err, Bool-cases, Option-cases,
  Result-cases,
}
use locksmith.Common.Text.{Text, text_eq, text_eq_refl}
use locksmith.Common.Assoc.{Map, lookup}
use locksmith.Plugin.Compat.{CompatValidator}
use locksmith.Plugin.Manager.{Manager, Outcome, Running, launch, already_running}
use locksmith.Plugin.Manager.Launching.{Launched, launch-Launched, launch_twice}
use locksmith.Config.{Config, Vault}
use locksmith.Daemon.Plugins.{launching, launch_found, and_then, load_loop, load_plugins}

-- Some vault has this type.
abbrev pub HasType : Text → Map Vault → Type 0
HasType t [] = ⊥
HasType t ((name, v) ∷ rest) = (v.vault_type ≡ t) ⊎ HasType t rest

-- Two entries of the vault map have this type.
abbrev pub TwoOf : Text → Map Vault → Type 0
TwoOf t [] = ⊥
TwoOf t ((name, v) ∷ rest) = ((v.vault_type ≡ t) × HasType t rest) ⊎ TwoOf t rest

module _ {P : Type 0} (v : CompatValidator) (launcher : Text → Outcome P)
    (discovered : Map Text) where
  -- After the loop has got past a type with a binary, its plugin runs, and what ran before runs on.
  found_running :
      (t k : Text) (m : Manager P) (rp : Running P)
      → (launch_found v launcher discovered t m).1 ≡ ok tt
      → lookup k m.plugins ≡ some rp
      → (rp' : Running P) × (lookup k (launch_found v launcher discovered t m).0.plugins ≡ some rp')
  unfolding launch_found
  found_running t k m rp h l = elim (Option-cases (lookup t discovered)) [
    | inl skipped ↦ rw (skipped, launch_found) (rp, l)
    | inr (b, e) ↦ elim (Result-cases (launch v launcher t b m).1) [
      | inr (x, failed) ↦ absurd (cc (rw (failed, launch_found) at (rw (e, launch_found) at h)))
      | inl (u, done) ↦
          rw (e, launch_found)
            (later (launch v launcher t b m).0 (launch-Launched v launcher t b m done))
    ]
  ]
    where
      later :
          (m' : Manager P) → Launched t m m' → (rp' : Running P) × (lookup k m'.plugins ≡ some rp')
      later m' a = elim (Bool-cases (text_eq t k)) [
        | inl same ↦ (a.running, a.plugins_after k ∙ rw same)
        | inr other ↦ (rp, a.plugins_after k ∙ rw other l)
      ]

  found_launched :
      (t b : Text) (m : Manager P)
      → lookup t discovered ≡ some b
      → (launch_found v launcher discovered t m).1 ≡ ok tt
      → (rp : Running P) × (lookup t (launch_found v launcher discovered t m).0.plugins ≡ some rp)
  unfolding launch_found
  found_launched t b m e h = elim (Result-cases (launch v launcher t b m).1) [
    | inr (x, failed) ↦ absurd (cc (rw (failed, launch_found) at (rw (e, launch_found) at h)))
    | inl (u, done) ↦
        let a = launch-Launched v launcher t b m done in
        rw (e, launch_found) (a.running, a.plugins_after t ∙ rw text_eq_refl)
  ]

  pub found_again :
      (t b : Text) (m : Manager P) (rp : Running P)
      → lookup t discovered ≡ some b
      → lookup t m.plugins ≡ some rp
      → launch_found v launcher discovered t m ≡ (m, err (launching t (already_running t)))
  unfolding launch_found
  found_again t b m rp e l = rw (e, launch_found) (rw (launch_twice v launcher t b m rp l))

  -- A type that runs already stops the loop with an error, if not something else does before.
  load_again :
      (t b : Text) (vaults : Map Vault) (m : Manager P) (rp : Running P)
      → lookup t discovered ≡ some b
      → lookup t m.plugins ≡ some rp
      → HasType t vaults
      → (load_loop v launcher discovered vaults m).1 ≢ ok tt
  unfolding load_loop and_then
  load_again t b [] m rp e l has h = absurd has
  load_again t b ((name, def) ∷ rest) m rp e l has h =
      elim (Result-cases (launch_found v launcher discovered def.vault_type m).1) [
        | inr (x, failed) ↦ cc (rw (failed, and_then) at h)
        | inl (u, done) ↦
            let m' = (launch_found v launcher discovered def.vault_type m).0 in
            let h' : (load_loop v launcher discovered rest m').1 ≡ ok tt =
              rw (done, and_then) at h in
            let (rp', l') = found_running def.vault_type t m rp done l in
            elim has [
              | inr later ↦ load_again t b rest m' rp' e l' later h'
              | inl same ↦ cc (
                found_again t b m rp e l,
                ap (λ x. (launch_found v launcher discovered x m).1) same,
              )
            ]
      ]

  load_two :
      (t b : Text) (vaults : Map Vault) (m : Manager P)
      → lookup t discovered ≡ some b
      → TwoOf t vaults
      → (load_loop v launcher discovered vaults m).1 ≢ ok tt
  unfolding load_loop and_then
  load_two t b [] m e two h = absurd two
  load_two t b ((name, def) ∷ rest) m e two h =
      elim (Result-cases (launch_found v launcher discovered def.vault_type m).1) [
        | inr (x, failed) ↦ cc (rw (failed, and_then) at h)
        | inl (u, done) ↦
            let m' = (launch_found v launcher discovered def.vault_type m).0 in
            let h' : (load_loop v launcher discovered rest m').1 ≡ ok tt =
              rw (done, and_then) at h in
            elim two [
              | inr later ↦ load_two t b rest m' e later h'
              | inl (same, has) ↦
                  let (rp', l') =
                    found_launched def.vault_type b m (ap (λ x. lookup x discovered) same ∙ e)
                      done in
                  load_again t b rest m' rp' e (subst (λ x. lookup x m'.plugins ≡ some rp') same l')
                    has h'
            ]
      ]

  -- `loadPlugins` fails whenever two configured vaults share a type whose plugin binary is there, in
  -- whatever order the map is walked and however the launches go.
  pub load_plugins-TwoOf :
      (cfg : Config) (t b : Text) (m : Manager P)
      → lookup t discovered ≡ some b
      → TwoOf t cfg.vaults
      → (load_plugins v launcher discovered cfg m).1 ≢ ok tt
  unfolding load_plugins
  load_plugins-TwoOf cfg t b m e two = load_two t b cfg.vaults m e two
