-- ===== src/Daemon/Lifecycle.antt =====
-- internal/daemon/daemon.go: reload, start, stop and the signal loop. The environment of a reload is
-- what the config file holds, what the YAML decoder makes of it, the home directory and the plugin
-- binaries found.
pub mod Reloading
pub mod Stuck
pub mod Processes
use locksmith.Common.{
  ◌≡◌, Bool, true, false, not, List, [], ◌∷◌, Option, none, some, Result, ok, err, if◌then◌else◌,
  wrap_err,
}
use locksmith.Common.Int.{ℤ}
use locksmith.Common.Text.{Text, is_empty}
use locksmith.Common.Assoc.{Map}
use locksmith.Session
use locksmith.Session.{Store}
use locksmith.Plugin.Compat.{CompatValidator}
use locksmith.Plugin.Manager
use locksmith.Plugin.Manager.{Manager, Outcome}
use locksmith.Config
use locksmith.Config.{Config, load_decoded}
use locksmith.Daemon.Plugins as Sync
use locksmith.Daemon.Plugins.{sync_plugins, load_plugins}

pub record Daemon (P : Type 0) : Type 0 where
  pub cfg_path : Text
  pub cfg : Config
  pub store : Store
  pub plugins : Manager P
  -- The gRPC server and listener are up.
  pub serving : Bool
  -- stopCleanup is closed.
  pub stopped : Bool

pub data LoadError : Type 0 where
  unreadable : LoadError
  unparsable : LoadError
  invalid : Config.Error → LoadError

pub data Error : Type 0 where
  no_config_path : Error
  loading : LoadError → Error
  syncing : Sync.Error → Error
  loading_plugins : Sync.Error → Error
  system : Error

pub record Reading : Type 0 where
  pub file : Option Text
  pub decode : Text → Option Config
  pub home : Option Text
  pub discovered : Map Text

-- config.Load
unfoldable pub load : Reading → Result LoadError Config
load r = elim r.file [
  | none ↦ err unreadable
  | some bytes ↦ elim (r.decode bytes) [
    | none ↦ err unparsable
    | some c ↦ wrap_err invalid (load_decoded r.home c)
  ]
]

-- What the operating system answers while the daemon starts.
pub record StartEnv : Type 0 where
  pub dir_made : Bool
  pub stale_removed : Bool
  pub listens : Bool
  pub chmod_done : Bool

pub data Signal : Type 0 where
  hangup : Signal
  interrupt : Signal
  terminate : Signal

module _ {P : Type 0} where
  -- New
  unfoldable pub new_daemon : Config → Text → Session.Heap → Daemon P
  new_daemon cfg cfg_path h = record {
    cfg_path = cfg_path;
    cfg = cfg;
    store = Session.new_store h;
    plugins = Manager.new_manager;
    serving = false;
    stopped = false;
  }

  -- Stop: closing twice is harmless, and the plugins are killed each time.
  unfoldable pub stop : Daemon P → Daemon P
  stop d = record d { plugins = Manager.kill d.plugins; serving = false; stopped = true }

  -- cleanupExpired
  unfoldable pub cleanup_expired : ℤ → Daemon P → Daemon P
  cleanup_expired now d = record d { store = (Session.cleanup now d.store).0 }

  -- The end of Reload: the new configuration is stored only if the plugins are in sync.
  unfoldable pub adopt :
      Config
      → Daemon P
      → Manager P × Result Sync.Error (Unit {0})
      → Daemon P × Result Error (Unit {0})
  adopt new d (m, err e) = (record d { plugins = m }, err (syncing e))
  adopt new d (m, ok u) = (record d { plugins = m; cfg = new }, ok tt)

module _ {P : Type 0} (v : CompatValidator) (launcher : Text → Outcome P) where
  -- Reload
  unfoldable pub reload : Reading → Daemon P → Daemon P × Result Error (Unit {0})
  reload r d = if is_empty d.cfg_path then (d, err no_config_path) else elim (load r) [
    | err e ↦ (d, err (loading e))
    | ok new ↦ adopt new d (sync_plugins v launcher r.discovered d.cfg new d.plugins)
  ]

  -- Start up to the serving of requests. The goroutines that it starts for cleanups and for watching the
  -- configuration file are not part of it.
  unfoldable pub start : StartEnv → Map Text → Daemon P → Daemon P × Result Error (Unit {0})
  start env discovered d =
      if not env.dir_made
      then (d, err system)
      else if not env.stale_removed
      then (d, err system)
      else let (m, r) = load_plugins v launcher discovered d.cfg d.plugins in
        let d' = record d { plugins = m } in
        elim r [
          | err e ↦ (d', err (loading_plugins e))
          | ok u ↦
              if not env.listens
              then (d', err system)
              else if not env.chmod_done
              then (d', err system)
              else (record d' { serving = true }, ok tt)
        ]

  -- WaitForShutdown: SIGHUP reloads, whatever the outcome; any other signal stops and ends the loop.
  unfoldable pub wait_for_shutdown : List (Signal × Reading) → Daemon P → Daemon P
  wait_for_shutdown [] d = d
  wait_for_shutdown ((hangup, r) ∷ rest) d = wait_for_shutdown rest (reload r d).0
  wait_for_shutdown ((interrupt, r) ∷ rest) d = stop d
  wait_for_shutdown ((terminate, r) ∷ rest) d = stop d
