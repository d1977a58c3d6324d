-- ===== src/Plugin/Manager/Launching.antt =====
-- What a Launch of internal/plugin/manager.go changes, when it fails and when it succeeds.
use locksmith.Common.{ℕ, ◌≡◌, refl, inl, inr, none, some, ok, err, if◌then◌else◌, Option-cases}
use locksmith.Common.Text.{Text, text_eq}
use locksmith.Common.Assoc.{lookup, lookup-insert}
use locksmith.Plugin.Compat.{CompatValidator}
use locksmith.Plugin.Manager.{
  Outcome, no_client, no_dispense, no_provider, provides, Running, Manager, Error, already_running,
  kill_client, start_client, describe, attach, launch,
}
use locksmith.Plugin.Manager.Processes.{IsSound, killed_again}

module _ {P : Type 0} where
  attach_fails :
      (v : CompatValidator) (t : Text) (o : Outcome P) (m : Manager P) (e : Error)
      → IsSound m
      → (attach v t m.next o (start_client m)).1 ≡ err e
      → let m' = (attach v t m.next o (start_client m)).0 in
        (m'.plugins ≡ m.plugins) × ((x : ℕ) → m'.alive x ≡ m.alive x)
  unfolding attach
  attach_fails v t (no_client c) m e s h =
      (unfold kill_client start_client in refl, λ x. killed_again m x s)
  attach_fails v t (no_dispense c) m e s h =
      (unfold kill_client start_client in refl, λ x. killed_again m x s)
  attach_fails v t no_provider m e s h =
      (unfold kill_client start_client in refl, λ x. killed_again m x s)
  attach_fails v t (provides p i) m e s h = absurd (cc)

  -- A `Launch` that fails, in whatever way, leaves the plugins as they were and no process behind.
  pub launch_fails :
      (v : CompatValidator) (launcher : Text → Outcome P) (t binary : Text) (m : Manager P)
      (e : Error)
      → IsSound m
      → (launch v launcher t binary m).1 ≡ err e
      → let m' = (launch v launcher t binary m).0 in
        (m'.plugins ≡ m.plugins) × ((x : ℕ) → m'.alive x ≡ m.alive x)
  unfolding launch
  launch_fails v launcher t binary m e s h = elim (Option-cases (lookup t m.plugins)) [
    | inr (rp, there) ↦ rw (there, launch) (refl, λ x. refl)
    | inl absent ↦
        rw (absent, launch) (attach_fails v t (launcher binary) m e s (rw (absent, launch) at h))
  ]

  -- A plugin that runs is not launched again: the second `Launch` of a type is an error.
  pub launch_twice :
      (v : CompatValidator) (launcher : Text → Outcome P) (t binary : Text) (m : Manager P)
      (rp : Running P)
      → lookup t m.plugins ≡ some rp
      → launch v launcher t binary m ≡ (m, err (already_running t))
  unfolding launch
  launch_twice v launcher t binary m rp e = rw (e, launch)

  -- A launch that succeeds adds its plugin and no other.
  pub record Launched (t : Text) (m m' : Manager P) : Type 0 where
    pub running : Running P
    pub absent : lookup t m.plugins ≡ none
    pub plugins_after :
        (k : Text)
        → lookup k m'.plugins ≡ (if text_eq t k then some running else lookup k m.plugins)

  attach-Launched :
      (v : CompatValidator) (t : Text) (o : Outcome P) (m : Manager P)
      → lookup t m.plugins ≡ none
      → (attach v t m.next o (start_client m)).1 ≡ ok tt
      → Launched t m (attach v t m.next o (start_client m)).0
  unfolding attach start_client
  attach-Launched v t (no_client c) m l h = absurd (cc)
  attach-Launched v t (no_dispense c) m l h = absurd (cc)
  attach-Launched v t no_provider m l h = absurd (cc)
  attach-Launched v t (provides p i) m l h = record {
    running = describe v m.next p i;
    absent = l;
    plugins_after = λ k. lookup-insert t k (describe v m.next p i) m.plugins;
  }

  pub launch-Launched :
      (v : CompatValidator) (launcher : Text → Outcome P) (t binary : Text) (m : Manager P)
      → (launch v launcher t binary m).1 ≡ ok tt
      → Launched t m (launch v launcher t binary m).0
  unfolding launch
  launch-Launched v launcher t binary m h = elim (Option-cases (lookup t m.plugins)) [
    | inr (rp, there) ↦ absurd (cc (rw (there, launch) at h))
    | inl absent ↦
        rw (absent, launch)
          (attach-Launched v t (launcher binary) m absent (rw (absent, launch) at h))
  ]
