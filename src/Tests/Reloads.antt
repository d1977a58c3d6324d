-- ===== src/Tests/Reloads.antt =====
-- Starting, reloading and ending the daemon of internal/daemon/daemon.go at concrete inputs.
use locksmith.Common.{ℕ, ◌≡◌, ◌≢◌, refl, true, false, List, [], ◌∷◌, none, some, ok, err}
use locksmith.Common.Text.{codes, text_eq, is_empty}
use locksmith.Common.Assoc.{lookup, insert}
use locksmith.Session.{Heap}
use locksmith.Plugin.Manager.{dispensing, new_manager, launch, attach, start_client, kill_client}
use locksmith.Config.{
  Config, validate, load_decoded, apply_defaults, check_keys, check_key, check_servers,
  count_slashes,
}
use locksmith.Daemon.Plugins.{
  launching, sync_plugins, vault_type_set, type_set_loop, launch_new, launch_found, and_then,
}
use locksmith.Daemon.Lifecycle.{
  Daemon, syncing, Reading, load, StartEnv, Signal, hangup, interrupt, new_daemon, adopt, reload,
  start, wait_for_shutdown,
}
use locksmith.Daemon.Watcher.{FsEvent, Watch, Scene, begin_watch, on_event, on_timer, pass}
use locksmith.Daemon.Lifecycle.Reloading.{Reloaded, reload-Reloaded}
use locksmith.Daemon.Lifecycle.Processes.{ends, shutdown_ends_all}
use locksmith.Daemon.Lifecycle.Stuck.{reloads, Wants, IsStuck, reloads_stuck}
use locksmith.Tests.Versions.{daemon, one_vault}
use locksmith.Tests.Plugins.{launcher, binaries, no_vaults}

-- A file of one byte; `c` is what it decodes to.
abbrev reading : Config → Reading
reading c = record {
  file = some (b'x' ∷ []);
  decode = λ t. some c;
  home = some (codes "/home/me");
  discovered = binaries;
}

abbrev lost : Reading
lost = record (reading one_vault) { file = none }

abbrev memory : Heap
memory x = []

abbrev begin : Daemon ℕ
begin = new_daemon (record no_vaults { keys = [] }) (codes "/etc/locksmith.yaml") memory

abbrev env : StartEnv
env = record { dir_made = true; stale_removed = true; listens = true; chmod_done = true }

abbrev signals : List (Signal × Reading)
signals = (hangup, reading one_vault) ∷ (interrupt, lost) ∷ []

abbrev ended : Daemon ℕ
ended = wait_for_shutdown daemon launcher signals (start daemon launcher env binaries begin).0

shutdown_ends_all_example :
    (ended.serving ≡ false)
    × ((ended.plugins.plugins ≡ []) × ((x : ℕ) → ended.plugins.alive x ≡ false))
unfolding ends
shutdown_ends_all_example =
    shutdown_ends_all daemon launcher env binaries (record no_vaults { keys = [] })
      (codes "/etc/locksmith.yaml") memory signals refl

reload-Reloaded_example :
    Reloaded daemon launcher
      (reading one_vault)
      begin
      (reload daemon launcher (reading one_vault) begin).0
unfolding reload load new_daemon is_empty load_decoded validate apply_defaults check_keys check_key
    check_servers lookup text_eq count_slashes adopt sync_plugins and_then launch_new launch_found
    vault_type_set type_set_loop launch attach insert new_manager
reload-Reloaded_example = reload-Reloaded daemon launcher (reading one_vault) begin refl

-- A good vault type and then one whose plugin does not come up.
abbrev half_good : Config
half_good = record one_vault {
  vaults =
      (codes "work", record { vault_type = codes "gopass"; store = []; account = []; service = [] })
      ∷ (
        codes "mac",
        record { vault_type = codes "keychain"; store = []; account = []; service = [] },
      )
      ∷ [];
}

-- The first reload fails at the second type.
abbrev half_way : Daemon ℕ
half_way = (reload daemon launcher (reading half_good) begin).0

first_reload :
    (reload daemon launcher (reading half_good) begin).1
    ≡ err
        (syncing (launching (codes "keychain") (dispensing (codes "keychain") (codes "no vault"))))
unfolding reload load new_daemon is_empty load_decoded validate apply_defaults check_keys check_key
    check_servers lookup text_eq count_slashes adopt sync_plugins and_then launch_new launch_found
    vault_type_set type_set_loop launch attach insert new_manager start_client
first_reload = refl

half_good-Wants : Wants daemon launcher (codes "gopass") (reading half_good)
unfolding load load_decoded validate apply_defaults check_keys check_key check_servers lookup
    text_eq count_slashes is_empty vault_type_set type_set_loop insert
half_good-Wants = record {
  new = (validate (some (codes "/home/me")) half_good).0;
  loaded = refl;
  wanted = refl;
  binary = codes "good";
  there = refl;
}

half_way-IsStuck : IsStuck daemon launcher (codes "gopass") begin.cfg half_way
unfolding reload load new_daemon is_empty load_decoded validate apply_defaults check_keys check_key
    check_servers lookup text_eq count_slashes adopt sync_plugins and_then launch_new launch_found
    vault_type_set type_set_loop launch attach insert new_manager start_client kill_client
half_way-IsStuck = record { same_cfg = refl; unknown = refl; running = refl; path = refl }

reloads_stuck_example :
    (reload daemon launcher
      (reading half_good)
      (reloads daemon launcher (reading half_good ∷ []) half_way)).1
    ≢ ok tt
reloads_stuck_example =
    reloads_stuck daemon launcher (codes "gopass") begin.cfg (reading half_good ∷ [])
      (reading half_good) half_way (half_good-Wants, tt) half_good-Wants half_way-IsStuck

-- A write to the configuration file at time 3, with a debounce time of 10, and the reload at time 14.
abbrev written : FsEvent
written = record {
  name = codes "/etc/locksmith.yaml";
  is_write = true;
  is_create = false;
  is_rename = false;
}

abbrev waiting : Watch
waiting = pass 11 (on_event (codes "/etc/locksmith.yaml") 10 written (begin_watch 3))

abbrev reloading : Scene
reloading = record { watch = on_timer waiting; changed_at = some 3 }
