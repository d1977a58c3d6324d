-- ===== src/Plugin/Manager.antt =====
-- internal/plugin/manager.go: the running plugin processes.
--
-- go-plugin starts and talks to a process; it is not modelled. A `Launcher` says, for each binary,
-- how far the connection gets and what the provider answers. `alive` is the environment's set of
-- processes: `clientFactory` starts one under a fresh number, and `Kill` ends it.
pub mod Clients
pub mod Processes
pub mod Launching
use locksmith.Common.{
  ℕ, ◌+◌, ◌≡◌, Bool, true, false, List, [], ◌∷◌, ◌++◌, map, Option, none, some, Result, ok, err,
  ◌==◌, if◌then◌else◌, wrap_err,
}
use locksmith.Common.Text.{Text}
use locksmith.Common.Assoc.{Map, lookup, insert, delete}
use locksmith.Plugin.Compat.{
  Info, CompatWarning, CompatValidator, info_unavailable, failed, validate,
}

-- vault.Provider over gRPC: what each call returns, with `P` the rest of a provider.
pub data Outcome (P : Type 0) : Type 0 where
  no_client : Text → Outcome P
  no_dispense : Text → Outcome P
  no_provider : Outcome P
  -- The provider, and what its Info call returns; a nil response is `none`.
  provides : P → Result Text (Option Info) → Outcome P

pub record Running (P : Type 0) : Type 0 where
  pub client : ℕ
  pub provider : P
  pub info : Option Info
  pub warnings : List CompatWarning

pub record Manager (P : Type 0) : Type 0 where
  pub plugins : Map (Running P)
  pub alive : ℕ → Bool
  pub next : ℕ

pub data Error : Type 0 where
  already_running : Text → Error
  connecting : Text → Text → Error
  dispensing : Text → Text → Error
  not_a_provider : Text → Error
  not_loaded : Text → Error

abbrev pub set_alive : ℕ → Bool → (ℕ → Bool) → ℕ → Bool
set_alive c b alive x = if x == c then b else alive x

module _ {P : Type 0} where
  -- NewManager
  unfoldable pub new_manager : Manager P
  new_manager = record { plugins = []; alive = λ x. false; next = 0 }

  -- client.Kill()
  unfoldable pub kill_client : ℕ → Manager P → Manager P
  kill_client c m = record m { alive = set_alive c false m.alive }

  -- m.clientFactory(binaryPath)
  unfoldable pub start_client : Manager P → Manager P
  start_client m = record m { alive = set_alive m.next true m.alive; next = m.next + 1 }

  -- The Info call and the compatibility check of a new plugin.
  unfoldable pub describe : CompatValidator → ℕ → P → Result Text (Option Info) → Running P
  describe v client provider (err e) = record {
    client = client;
    provider = provider;
    info = none;
    warnings = record { kind = info_unavailable; message = failed e } ∷ [];
  }
  describe v client provider (ok info) = record {
    client = client;
    provider = provider;
    info = info;
    warnings = validate v info;
  }

  -- What Launch does with the process that it has started.
  unfoldable pub attach :
      CompatValidator → Text → ℕ → Outcome P → Manager P → Manager P × Result Error (Unit {0})
  attach v vault_type c (no_client e) m = (kill_client c m, err (connecting vault_type e))
  attach v vault_type c (no_dispense e) m = (kill_client c m, err (dispensing vault_type e))
  attach v vault_type c no_provider m = (kill_client c m, err (not_a_provider vault_type))
  attach v vault_type c (provides provider info) m =
      (record m { plugins = insert vault_type (describe v c provider info) m.plugins }, ok tt)

  -- Launch
  unfoldable pub launch :
      CompatValidator
      → (Text → Outcome P)
      → Text
      → Text
      → Manager P
      → Manager P × Result Error (Unit {0})
  launch v launcher vault_type binary m = elim (lookup vault_type m.plugins) [
    | some rp ↦ (m, err (already_running vault_type))
    | none ↦ attach v vault_type m.next (launcher binary) (start_client m)
  ]

  -- Warnings
  unfoldable pub warnings : Text → Manager P → List CompatWarning
  warnings vault_type m = elim (lookup vault_type m.plugins) [ none ↦ [] | some rp ↦ rp.warnings ]

  -- CachedInfo
  unfoldable pub cached_info : Text → Manager P → Option Info
  cached_info vault_type m = elim (lookup vault_type m.plugins) [ none ↦ none | some rp ↦ rp.info ]

  -- Get
  unfoldable pub get : Text → Manager P → Result Error P
  get vault_type m = elim (lookup vault_type m.plugins) [
    | none ↦ err (not_loaded vault_type)
    | some rp ↦ ok rp.provider
  ]

  -- Types
  unfoldable pub types : Manager P → List Text
  types m = map (λ (e : Text × Running P). e.0) m.plugins

  -- The loop of Kill over the map as it is when the loop begins.
  unfoldable pub kill_loop : Map (Running P) → Manager P → Manager P
  kill_loop [] m = m
  kill_loop ((name, rp) ∷ rest) m =
      let killed = kill_client rp.client m in
      kill_loop rest (record killed { plugins = delete name m.plugins })

  -- Kill
  unfoldable pub kill : Manager P → Manager P
  kill m = kill_loop m.plugins m

  -- KillOne
  unfoldable pub kill_one : Text → Manager P → Manager P
  kill_one vault_type m = elim (lookup vault_type m.plugins) [
    | none ↦ m
    | some rp ↦
        let killed = kill_client rp.client m in
        record killed { plugins = delete vault_type m.plugins }
  ]

-- The calls that change the manager.
pub data Call : Type 0 where
  launches : Text → Text → Call
  kills_one : Text → Call
  kills : Call

module _ {P : Type 0} (v : CompatValidator) (launcher : Text → Outcome P) where
  unfoldable pub step : Manager P → Call → Manager P
  step m (launches vault_type binary) = (launch v launcher vault_type binary m).0
  step m (kills_one vault_type) = kill_one vault_type m
  step m kills = kill m

  unfoldable pub run : Manager P → List Call → Manager P
  run m [] = m
  run m (c ∷ cs) = run (step m c) cs
