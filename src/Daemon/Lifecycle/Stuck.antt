-- ===== src/Daemon/Lifecycle/Stuck.antt =====
-- Reload of internal/daemon/daemon.go after one that has failed half way.
use locksmith.Common.{
  ◌≡◌, ◌≢◌, ◌∙◌, refl, ap, true, false, List, [], ◌∷◌, All, inl, inr, some, Result, ok, err,
  Bool-cases, Option-cases, Result-cases,
}
use locksmith.Common.Text.{Text, text_eq, is_empty}
use locksmith.Common.Assoc.{Map, lookup, lookup-insert}
use locksmith.Plugin.Compat.{CompatValidator}
use locksmith.Plugin.Manager.{
  Manager, Outcome, no_client, no_dispense, no_provider, provides, launch, attach, start_client,
  kill_client, describe,
}
use locksmith.Config.{Config}
use locksmith.Daemon.Plugins as Sync
use locksmith.Daemon.Plugins.{
  launch_found, and_then, launch_new, kill_old, sync_plugins, vault_type_set,
}
use locksmith.Daemon.Plugins.Syncing.{runs, has}
use locksmith.Daemon.Plugins.Blocking.{sync_plugins_stuck}
use locksmith.Daemon.Lifecycle.{Daemon, Reading, load, adopt, reload}

module _ {P : Type 0} (v : CompatValidator) (launcher : Text → Outcome P) where
  attach-runs :
      (k t : Text) (o : Outcome P) (m : Manager P)
      → runs k m ≡ true
      → runs k (attach v t m.next o (start_client m)).0 ≡ true
  unfolding attach start_client kill_client
  attach-runs k t (no_client e) m r = r
  attach-runs k t (no_dispense e) m r = r
  attach-runs k t no_provider m r = r
  attach-runs k t (provides p i) m r =
      rw (lookup-insert t k (describe v m.next p i) m.plugins)
        (elim (Bool-cases (text_eq t k)) [ inl same ↦ rw same refl | inr other ↦ rw other r ])

  launch-runs :
      (k t binary : Text) (m : Manager P)
      → runs k m ≡ true
      → runs k (launch v launcher t binary m).0 ≡ true
  unfolding launch
  launch-runs k t binary m r = elim (Option-cases (lookup t m.plugins)) [
    | inr (rp, there) ↦ rw (there, launch) r
    | inl absent ↦ rw (absent, launch) (attach-runs k t (launcher binary) m r)
  ]

  launch_found_keeps :
      (discovered : Map Text) (k t : Text) (m : Manager P)
      → runs k m ≡ true
      → runs k (launch_found v launcher discovered t m).0 ≡ true
  unfolding launch_found
  launch_found_keeps discovered k t m r = elim (Option-cases (lookup t discovered)) [
    | inl absent ↦ rw (absent, launch_found) r
    | inr (b, there) ↦ rw (there, launch_found) (launch-runs k t b m r)
  ]

  launch_new_keeps :
      (discovered : Map Text) (old_types types : Map (Unit {0})) (k : Text) (m : Manager P)
      → runs k m ≡ true
      → runs k (launch_new v launcher discovered old_types types m).0 ≡ true
  unfolding launch_new and_then
  launch_new_keeps discovered old_types [] k m r = r
  launch_new_keeps discovered old_types ((t, u) ∷ rest) k m r =
      let m' = (launch_found v launcher discovered t m).0 in
      let r' = launch_found_keeps discovered k t m r in
      elim (Option-cases (lookup t old_types)) [
        | inr (u', was) ↦ rw (was, launch_new) (launch_new_keeps discovered old_types rest k m r)
        | inl new ↦
            rw (new, launch_new)
              (elim (Result-cases (launch_found v launcher discovered t m).1) [
                | inr (x, failed) ↦ rw (failed, and_then) r'
                | inl (w, done) ↦
                    rw (done, and_then) (launch_new_keeps discovered old_types rest k m' r')
              ])
      ]

  sync_plugins_keeps :
      (discovered : Map Text) (old new : Config) (k : Text) (m : Manager P)
      → (sync_plugins v launcher discovered old new m).1 ≢ ok tt
      → runs k m ≡ true
      → runs k (sync_plugins v launcher discovered old new m).0 ≡ true
  unfolding sync_plugins and_then
  sync_plugins_keeps discovered old new k m f r =
      let o = vault_type_set old in
      let n = vault_type_set new in
      elim (Result-cases (launch_new v launcher discovered o n m).1) [
        | inr (x, failed) ↦ rw (failed, and_then) (launch_new_keeps discovered o n k m r)
        | inl (w, done) ↦ absurd (f (rw (done, and_then) refl))
      ]

  -- Reloading once for each reading, in turn.
  unfoldable pub reloads : List Reading → Daemon P → Daemon P
  reloads [] d = d
  reloads (r ∷ rs) d = reloads rs (reload v launcher r d).0

  -- The type `t` is new in the configuration of this reading, and its binary has been found.
  pub record Wants (t : Text) (r : Reading) : Type 0 where
    pub new : Config
    pub loaded : load r ≡ ok new
    pub wanted : has t (vault_type_set new) ≡ true
    pub binary : Text
    pub there : lookup t r.discovered ≡ some binary

  -- The daemon runs the plugin of a type that its own configuration does not name.
  pub record IsStuck (t : Text) (cfg : Config) (d : Daemon P) : Type 0 where
    pub same_cfg : d.cfg ≡ cfg
    pub unknown : has t (vault_type_set cfg) ≡ false
    pub running : runs t d.plugins ≡ true
    pub path : is_empty d.cfg_path ≡ false

  adopt-IsStuck :
      (t : Text) (cfg : Config) (new : Config) (d : Daemon P)
      (s : Manager P × Result Sync.Error (Unit {0}))
      → IsStuck t cfg d
      → s.1 ≢ ok tt
      → runs t s.0 ≡ true
      → ((adopt new d s).1 ≢ ok tt) × IsStuck t cfg (adopt new d s).0
  unfolding adopt
  adopt-IsStuck t cfg new d (m, ok u) st f r = absurd (f refl)
  adopt-IsStuck t cfg new d (m, err e) st f r = (
    λ h. cc,
    record { same_cfg = st.same_cfg; unknown = st.unknown; running = r; path = st.path },
  )

  reload-IsStuck :
      (t : Text) (cfg : Config) (r : Reading) (d : Daemon P)
      → Wants t r
      → IsStuck t cfg d
      → ((reload v launcher r d).1 ≢ ok tt) × IsStuck t cfg (reload v launcher r d).0
  unfolding reload
  reload-IsStuck t cfg r d w st =
      let fails : (sync_plugins v launcher r.discovered d.cfg w.new d.plugins).1 ≢ ok tt =
        sync_plugins_stuck v launcher r.discovered d.cfg w.new t w.binary d.plugins w.there
          (ap (λ c. has t (vault_type_set c)) st.same_cfg ∙ st.unknown) w.wanted st.running in
      rw (st.path, reload)
        (rw (w.loaded, reload)
          (adopt-IsStuck t cfg w.new d (sync_plugins v launcher r.discovered d.cfg w.new d.plugins)
            st fails (sync_plugins_keeps r.discovered d.cfg w.new t d.plugins fails st.running)))

  -- In a daemon with a configuration file, once the plugin of a type runs that the daemon's configuration
  -- does not name, as after a reload that launched it and then failed at another type: as long as every
  -- reload finds a configuration that loads and has the type, and the type's binary in the plugin
  -- directories, each of them fails, however the launches go and however often it is tried.
  pub reloads_stuck :
      (t : Text) (cfg : Config) (rs : List Reading) (r : Reading) (d : Daemon P)
      → All (Wants t) rs
      → Wants t r
      → IsStuck t cfg d
      → (reload v launcher r (reloads rs d)).1 ≢ ok tt
  unfolding reloads
  reloads_stuck t cfg [] r d ws w st = (reload-IsStuck t cfg r d w st).0
  reloads_stuck t cfg (r' ∷ rs) r d ws w st =
      reloads_stuck t cfg rs r (reload v launcher r' d).0 ws.1 w
        (reload-IsStuck t cfg r' d ws.0 st).1
