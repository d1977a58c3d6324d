-- ===== src/Daemon/Lifecycle/Processes.antt =====
-- internal/daemon/daemon.go, over the plugin manager: no plugin process is lost.
use locksmith.Common.{
  ℕ, ◌≡◌, refl, Bool, true, false, List, [], ◌∷◌, inl, inr, Result, ok, err, Bool-cases,
  Option-cases, Result-cases,
}
use locksmith.Common.Text.{Text, is_empty}
use locksmith.Common.Assoc.{Map, lookup}
use locksmith.Session
use locksmith.Plugin.Compat.{CompatValidator}
use locksmith.Plugin.Manager.{Manager, Outcome, kill_one}
use locksmith.Plugin.Manager.Processes.{
  IsSound, launch-IsSound, kill_one-IsSound, kill-ends_all, new_manager-IsSound,
}
use locksmith.Config.{Config, Vault}
use locksmith.Daemon.Plugins.{
  Error, launch_found, and_then, launch_new, kill_old, sync_plugins, load_loop, load_plugins,
  vault_type_set,
}
use locksmith.Daemon.Lifecycle.{
  Daemon, Reading, load, StartEnv, Signal, hangup, interrupt, terminate, new_daemon, stop, adopt,
  reload, start, wait_for_shutdown,
}

module _ {P : Type 0} where
  kill_old-IsSound :
      (new_types types : Map (Unit {0})) (m : Manager P)
      → IsSound m
      → IsSound (kill_old new_types types m)
  unfolding kill_old
  kill_old-IsSound new_types [] m s = s
  kill_old-IsSound new_types ((t, u) ∷ rest) m s = elim (Option-cases (lookup t new_types)) [
    | inr (u', wanted) ↦ rw (wanted, kill_old) (kill_old-IsSound new_types rest m s)
    | inl unwanted ↦
        rw (unwanted, kill_old)
          (kill_old-IsSound new_types rest (kill_one t m) (kill_one-IsSound t m s))
  ]

  and_then-IsSound :
      (r : Manager P × Result Error (Unit {0}))
      (rest : Manager P → Manager P × Result Error (Unit {0}))
      → IsSound r.0
      → ((m : Manager P) → IsSound m → IsSound (rest m).0)
      → IsSound (and_then r rest).0
  unfolding and_then
  and_then-IsSound (m, err e) rest s keeps = s
  and_then-IsSound (m, ok u) rest s keeps = keeps m s

  adopt-IsSound :
      (new : Config) (d : Daemon P) (r : Manager P × Result Error (Unit {0}))
      → IsSound r.0
      → IsSound (adopt new d r).0.plugins
  unfolding adopt
  adopt-IsSound new d (m, err e) s = s
  adopt-IsSound new d (m, ok u) s = s

module _ {P : Type 0} (v : CompatValidator) (launcher : Text → Outcome P) where
  launch_found-IsSound :
      (discovered : Map Text) (t : Text) (m : Manager P)
      → IsSound m
      → IsSound (launch_found v launcher discovered t m).0
  unfolding launch_found
  launch_found-IsSound discovered t m s = elim (Option-cases (lookup t discovered)) [
    | inl absent ↦ rw (absent, launch_found) s
    | inr (b, there) ↦ rw (there, launch_found) (launch-IsSound v launcher t b m s)
  ]

  launch_new-IsSound :
      (discovered : Map Text) (old_types types : Map (Unit {0})) (m : Manager P)
      → IsSound m
      → IsSound (launch_new v launcher discovered old_types types m).0
  unfolding launch_new
  launch_new-IsSound discovered old_types [] m s = s
  launch_new-IsSound discovered old_types ((t, u) ∷ rest) m s =
      elim (Option-cases (lookup t old_types)) [
        | inr (u', was) ↦ rw (was, launch_new) (launch_new-IsSound discovered old_types rest m s)
        | inl new ↦
            rw (new, launch_new)
              (and_then-IsSound (launch_found v launcher discovered t m)
                (launch_new v launcher discovered old_types rest)
                (launch_found-IsSound discovered t m s)
                (launch_new-IsSound discovered old_types rest))
      ]

  sync_plugins-IsSound :
      (discovered : Map Text) (old new : Config) (m : Manager P)
      → IsSound m
      → IsSound (sync_plugins v launcher discovered old new m).0
  unfolding sync_plugins
  sync_plugins-IsSound discovered old new m s =
      let o = vault_type_set old in
      let n = vault_type_set new in
      and_then-IsSound (launch_new v launcher discovered o n m) (λ m'. (kill_old n o m', ok tt))
        (launch_new-IsSound discovered o n m s) (kill_old-IsSound n o)

  load_loop-IsSound :
      (discovered : Map Text) (vaults : Map Vault) (m : Manager P)
      → IsSound m
      → IsSound (load_loop v launcher discovered vaults m).0
  unfolding load_loop
  load_loop-IsSound discovered [] m s = s
  load_loop-IsSound discovered ((name, def) ∷ rest) m s =
      and_then-IsSound (launch_found v launcher discovered def.vault_type m)
        (load_loop v launcher discovered rest) (launch_found-IsSound discovered def.vault_type m s)
        (load_loop-IsSound discovered rest)

  -- `Reload`, whatever comes of it, keeps the plugin processes those of the manager's map.
  pub reload-IsSound :
      (r : Reading) (d : Daemon P) → IsSound d.plugins → IsSound (reload v launcher r d).0.plugins
  unfolding reload
  reload-IsSound r d s = elim (Bool-cases (is_empty d.cfg_path)) [
    | inl no_path ↦ rw (no_path, reload) s
    | inr path ↦ elim (Result-cases (load r)) [
      | inr (e, failed) ↦ rw (path, reload) (rw (failed, reload) s)
      | inl (new, loaded) ↦
          rw (path, reload)
            (rw (loaded, reload)
              (adopt-IsSound new d (sync_plugins v launcher r.discovered d.cfg new d.plugins)
                (sync_plugins-IsSound r.discovered d.cfg new d.plugins s)))
    ]
  ]

  start-IsSound :
      (env : StartEnv) (discovered : Map Text) (d : Daemon P)
      → IsSound d.plugins
      → IsSound (start v launcher env discovered d).0.plugins
  unfolding start load_plugins
  start-IsSound env discovered d s = elim (Bool-cases env.dir_made) [
    | inr no_dir ↦ rw (no_dir, start) s
    | inl dir ↦ elim (Bool-cases env.stale_removed) [
      | inr stale ↦ rw (dir, start) (rw (stale, start) s)
      | inl removed ↦
          rw (dir, start)
            (rw (removed, start)
              (elim (Result-cases (load_loop v launcher discovered d.cfg.vaults d.plugins).1) [
                | inr (e, failed) ↦
                    rw failed (load_loop-IsSound discovered d.cfg.vaults d.plugins s)
                | inl (u, loaded) ↦ rw loaded (elim (Bool-cases env.listens) [
                  | inr deaf ↦ rw deaf (load_loop-IsSound discovered d.cfg.vaults d.plugins s)
                  | inl listens ↦ rw listens (elim (Bool-cases env.chmod_done) [
                    | inr public ↦ rw public (load_loop-IsSound discovered d.cfg.vaults d.plugins s)
                    | inl private ↦
                        rw private (load_loop-IsSound discovered d.cfg.vaults d.plugins s)
                  ])
                ])
              ]))
    ]
  ]

  -- One of the signals ends the daemon.
  unfoldable pub ends : List (Signal × Reading) → Bool
  ends [] = false
  ends ((hangup, r) ∷ rest) = ends rest
  ends ((interrupt, r) ∷ rest) = true
  ends ((terminate, r) ∷ rest) = true

  stop_ends_all :
      (d : Daemon P)
      → IsSound d.plugins
      → let d' = stop d in
        (d'.serving ≡ false) × ((d'.plugins.plugins ≡ []) × ((x : ℕ) → d'.plugins.alive x ≡ false))
  unfolding stop
  stop_ends_all d s = (refl, kill-ends_all d.plugins s)

  wait_ends_all :
      (signals : List (Signal × Reading)) (d : Daemon P)
      → ends signals ≡ true
      → IsSound d.plugins
      → let d' = wait_for_shutdown v launcher signals d in
        (d'.serving ≡ false) × ((d'.plugins.plugins ≡ []) × ((x : ℕ) → d'.plugins.alive x ≡ false))
  unfolding wait_for_shutdown ends
  wait_ends_all [] d e s = absurd (cc)
  wait_ends_all ((hangup, r) ∷ rest) d e s =
      wait_ends_all rest (reload v launcher r d).0 e (reload-IsSound r d s)
  wait_ends_all ((interrupt, r) ∷ rest) d e s = stop_ends_all d s
  wait_ends_all ((terminate, r) ∷ rest) d e s = stop_ends_all d s

  -- A daemon that has started and then takes signals, reloading its configuration at each SIGHUP with
  -- whatever outcome, serves nothing and has no plugin process left once a SIGINT or SIGTERM has come.
  pub shutdown_ends_all :
      (env : StartEnv) (discovered : Map Text) (cfg : Config) (cfg_path : Text) (h : Session.Heap)
      (signals : List (Signal × Reading))
      → ends signals ≡ true
      → let started = (start v launcher env discovered (new_daemon cfg cfg_path h)).0 in
        let d = wait_for_shutdown v launcher signals started in
        (d.serving ≡ false) × ((d.plugins.plugins ≡ []) × ((x : ℕ) → d.plugins.alive x ≡ false))
  shutdown_ends_all env discovered cfg cfg_path h signals e =
      wait_ends_all signals (start v launcher env discovered (new_daemon cfg cfg_path h)).0 e (
        start-IsSound env discovered (new_daemon cfg cfg_path h)
          (unfold new_daemon in new_manager-IsSound))
