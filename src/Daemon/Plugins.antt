-- ===== src/Daemon/Plugins.antt =====
-- The plugins of a configuration: vaultTypeSet, syncPlugins and loadPlugins of
-- internal/daemon/daemon.go. `discovered` is what Discover finds at the time of the call.
pub mod Loading
pub mod Syncing
pub mod Blocking
use locksmith.Common.{
  ◌≡◌, Bool, true, false, List, [], ◌∷◌, Option, none, some, Result, ok, err, if◌then◌else◌,
}
use locksmith.Common.Text.{Text}
use locksmith.Common.Assoc.{Map, lookup, insert}
use locksmith.Plugin.Compat.{CompatValidator}
use locksmith.Plugin.Manager
use locksmith.Plugin.Manager.{Manager, Outcome, launch, kill_one}
use locksmith.Config.{Config, Vault}

pub data Error : Type 0 where
  launching : Text → Manager.Error → Error

-- The set types[v.Type] = struct{}{}.
unfoldable pub type_set_loop : Map Vault → Map (Unit {0}) → Map (Unit {0})
type_set_loop [] types = types
type_set_loop ((name, v) ∷ rest) types = type_set_loop rest (insert v.vault_type tt types)

-- vaultTypeSet
unfoldable pub vault_type_set : Config → Map (Unit {0})
vault_type_set cfg = type_set_loop cfg.vaults []

module _ {P : Type 0} where
  -- After a failed launch the loop returns.
  unfoldable pub and_then :
      Manager P × Result Error (Unit {0})
      → (Manager P → Manager P × Result Error (Unit {0}))
      → Manager P × Result Error (Unit {0})
  and_then (m, err e) rest = (m, err e)
  and_then (m, ok u) rest = rest m

  -- The loop of syncPlugins over the old types.
  unfoldable pub kill_old : Map (Unit {0}) → Map (Unit {0}) → Manager P → Manager P
  kill_old new_types [] m = m
  kill_old new_types ((vault_type, u) ∷ rest) m = elim (lookup vault_type new_types) [
    | some there ↦ kill_old new_types rest m
    | none ↦ kill_old new_types rest (kill_one vault_type m)
  ]

module _ {P : Type 0} (v : CompatValidator) (launcher : Text → Outcome P)
    (discovered : Map Text) where
  -- Launching, if a binary has been found; without one the type is skipped with a warning.
  unfoldable pub launch_found : Text → Manager P → Manager P × Result Error (Unit {0})
  launch_found vault_type m = elim (lookup vault_type discovered) [
    | none ↦ (m, ok tt)
    | some binary ↦
        let (m', r) = launch v launcher vault_type binary m in
        (m', elim r [ ok u ↦ ok tt | err e ↦ err (launching vault_type e) ])
  ]

  -- The loop of syncPlugins over the new types.
  unfoldable pub launch_new :
      Map (Unit {0}) → Map (Unit {0}) → Manager P → Manager P × Result Error (Unit {0})
  launch_new old_types [] m = (m, ok tt)
  launch_new old_types ((vault_type, u) ∷ rest) m = elim (lookup vault_type old_types) [
    | some there ↦ launch_new old_types rest m
    | none ↦ and_then (launch_found vault_type m) (launch_new old_types rest)
  ]

  -- syncPlugins
  unfoldable pub sync_plugins : Config → Config → Manager P → Manager P × Result Error (Unit {0})
  sync_plugins old new m =
      let old_types = vault_type_set old in
      let new_types = vault_type_set new in
      and_then (launch_new old_types new_types m) λ m'. (kill_old new_types old_types m', ok tt)

  -- The loop of loadPlugins over the vaults.
  unfoldable pub load_loop : Map Vault → Manager P → Manager P × Result Error (Unit {0})
  load_loop [] m = (m, ok tt)
  load_loop ((name, def) ∷ rest) m = and_then (launch_found def.vault_type m) (load_loop rest)

  -- loadPlugins
  unfoldable pub load_plugins : Config → Manager P → Manager P × Result Error (Unit {0})
  load_plugins cfg m = load_loop cfg.vaults m
