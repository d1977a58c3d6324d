-- ===== src/Daemon/Lifecycle/Reloading.antt =====
-- The outcomes of Reload of internal/daemon/daemon.go.
use locksmith.Common.{
  ◌≡◌, ◌∙◌, refl, ap, false, ◌||◌, inl, inr, Result, ok, err, if◌then◌else◌, Bool-cases,
  Option-cases, Result-cases,
}
use locksmith.Common.Text.{Text, is_empty}
use locksmith.Plugin.Compat.{CompatValidator}
use locksmith.Plugin.Manager.{Manager, Outcome}
use locksmith.Config.{Config, load_decoded}
use locksmith.Config.Validation.{IsValid, load_decoded-IsValid}
use locksmith.Daemon.Plugins as Sync
use locksmith.Daemon.Plugins.{launch_found, and_then, launch_new, sync_plugins, vault_type_set}
use locksmith.Daemon.Plugins.Syncing.{runs, has, found, sync_plugins-runs}
use locksmith.Daemon.Lifecycle.{Daemon, Reading, load, Error, adopt, reload}

-- config.Load answers with a valid configuration only.
load-IsValid : (r : Reading) (c : Config) → load r ≡ ok c → IsValid c
unfolding load load_decoded
load-IsValid r c e = elim (Option-cases r.file) [
  | inl unreadable ↦ absurd (cc (rw (unreadable, load) at e))
  | inr (bytes, read) ↦ elim (Option-cases (r.decode bytes)) [
    | inl unparsable ↦ absurd (cc (rw unparsable at (rw (read, load) at e)))
    | inr (c', parsed) ↦ elim (Result-cases (load_decoded r.home c')) [
      | inr (x, failed) ↦ absurd (cc (rw failed at (rw parsed at (rw (read, load) at e))))
      | inl (c'', loaded) ↦
          let same : c'' ≡ c = cc (rw loaded at (rw parsed at (rw (read, load) at e))) in
          load_decoded-IsValid r.home c' c (loaded ∙ ap (λ x. ok x) same)
    ]
  ]
]

module _ {P : Type 0} where
  pub adopt_failed :
      (new : Config) (d : Daemon P) (r : Manager P × Result Sync.Error (Unit {0})) (e : Error)
      → (adopt new d r).1 ≡ err e
      → let d' = (adopt new d r).0 in
        (d'.cfg ≡ d.cfg)
        × ((d'.store ≡ d.store) × ((d'.serving ≡ d.serving) × (d'.stopped ≡ d.stopped)))
  unfolding adopt
  adopt_failed new d (m, err x) e h = (refl, (refl, (refl, refl)))
  adopt_failed new d (m, ok u) e h = absurd (cc)

  pub adopt_done :
      (new : Config) (d : Daemon P) (r : Manager P × Result Sync.Error (Unit {0}))
      → (adopt new d r).1 ≡ ok tt
      → let d' = (adopt new d r).0 in
        (r.1 ≡ ok tt) × ((d'.cfg ≡ new) × ((d'.plugins ≡ r.0) × (d'.store ≡ d.store)))
  unfolding adopt
  adopt_done new d (m, err x) h = absurd (cc)
  adopt_done new d (m, ok u) h = (refl, (refl, (refl, refl)))

  pub adopt-plugins :
      (new : Config) (d : Daemon P) (r : Manager P × Result Sync.Error (Unit {0}))
      → (adopt new d r).0.plugins ≡ r.0
  unfolding adopt
  adopt-plugins new d (m, err x) = refl
  adopt-plugins new d (m, ok u) = refl

  pub adopt-cfg_path :
      (new : Config) (d : Daemon P) (r : Manager P × Result Sync.Error (Unit {0}))
      → (adopt new d r).0.cfg_path ≡ d.cfg_path
  unfolding adopt
  adopt-cfg_path new d (m, err x) = refl
  adopt-cfg_path new d (m, ok u) = refl

module _ {P : Type 0} (v : CompatValidator) (launcher : Text → Outcome P) where
  -- A reload that fails, in whatever way, leaves the configuration and the sessions as they were.
  pub reload_fails :
      (r : Reading) (d : Daemon P) (e : Error)
      → (reload v launcher r d).1 ≡ err e
      → let d' = (reload v launcher r d).0 in
        (d'.cfg ≡ d.cfg)
        × ((d'.store ≡ d.store) × ((d'.serving ≡ d.serving) × (d'.stopped ≡ d.stopped)))
  unfolding reload
  reload_fails r d e h = elim (Bool-cases (is_empty d.cfg_path)) [
    | inl no_path ↦ rw (no_path, reload) (refl, (refl, (refl, refl)))
    | inr path ↦ elim (Result-cases (load r)) [
      | inr (x, failed) ↦ rw (path, reload) (rw (failed, reload) (refl, (refl, (refl, refl))))
      | inl (new, loaded) ↦
          rw (path, reload)
            (rw (loaded, reload)
              (adopt_failed new d (sync_plugins v launcher r.discovered d.cfg new d.plugins) e
                (rw loaded at (rw (path, reload) at h))))
    ]
  ]

  -- A reload that succeeds.
  pub record Reloaded (r : Reading) (d d' : Daemon P) : Type 0 where
    pub new : Config
    pub loaded : load r ≡ ok new
    pub valid : IsValid new
    pub adopted : d'.cfg ≡ new
    pub kept : d'.store ≡ d.store
    pub in_sync :
        (t : Text)
        → runs t d'.plugins ≡ (
            if has t (vault_type_set new)
            then (if has t (vault_type_set d.cfg)
                then runs t d.plugins
                else runs t d.plugins || found v launcher r.discovered t)
            else (if has t (vault_type_set d.cfg) then false else runs t d.plugins))

  -- After a reload that succeeds the daemon has the configuration that was loaded, which is valid, keeps
  -- its sessions, and runs of the plugins those that ran or were found of the new types, none of the
  -- types that only the old configuration had, and any other as before.
  pub reload-Reloaded :
      (r : Reading) (d : Daemon P)
      → (reload v launcher r d).1 ≡ ok tt
      → Reloaded r d (reload v launcher r d).0
  unfolding reload
  reload-Reloaded r d h = elim (Bool-cases (is_empty d.cfg_path)) [
    | inl no_path ↦ absurd (cc (rw (no_path, reload) at h))
    | inr path ↦ elim (Result-cases (load r)) [
      | inr (x, failed) ↦ absurd (cc (rw failed at (rw (path, reload) at h)))
      | inl (c, loads) ↦
          let s = sync_plugins v launcher r.discovered d.cfg c d.plugins in
          let (synced, (cfg_new, (plugins_new, same_store))) =
            adopt_done c d s (rw loads at (rw (path, reload) at h)) in
          rw (path, reload)
            (rw (loads, reload)
              (record {
                new = c;
                loaded = loads;
                valid = load-IsValid r c loads;
                adopted = cfg_new;
                kept = same_store;
                in_sync = λ t.
                    ap (λ m. runs t m) plugins_new
                    ∙ sync_plugins-runs v launcher r.discovered d.cfg c t d.plugins synced;
              }))
    ]
  ]
