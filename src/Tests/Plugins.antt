-- ===== src/Tests/Plugins.antt =====
-- Plugin processes at concrete inputs: internal/plugin/manager.go and the plugins of
-- internal/daemon/daemon.go.
use locksmith.Common.{ℕ, ◌≢◌, refl, inl, List, [], ◌∷◌, none, ok, if◌then◌else◌}
use locksmith.Common.Text.{Text, codes, text_eq}
use locksmith.Common.Assoc.{Map, lookup}
use locksmith.Plugin.Manager.{
  Outcome, no_dispense, provides, Manager, new_manager, Call, launches, kills_one, run,
}
use locksmith.Plugin.Manager.Processes.{IsSound, run-IsSound}
use locksmith.Config.{Config}
use locksmith.Daemon.Plugins.{load_plugins}
use locksmith.Daemon.Plugins.Loading.{load_plugins-TwoOf}
use locksmith.Tests.Versions.{daemon, one_vault}

-- The binary "good" serves the provider 1, any other does not get past Dispense.
abbrev pub launcher : Text → Outcome ℕ
launcher binary =
    if text_eq binary (codes "good") then provides 1 (ok none) else no_dispense (codes "no vault")

abbrev calls : List Call
calls =
    launches (codes "gopass") (codes "good")
    ∷ launches (codes "keychain") (codes "bad")
    ∷ kills_one (codes "gopass")
    ∷ []

abbrev fresh : Manager ℕ
fresh = new_manager

run-IsSound_example : IsSound (run daemon launcher fresh calls)
run-IsSound_example = run-IsSound daemon launcher calls

fresh-IsSound : IsSound fresh
fresh-IsSound = unfold run in run-IsSound daemon launcher []

abbrev pub binaries : Map Text
binaries = (codes "gopass", codes "good") ∷ (codes "keychain", codes "bad") ∷ []

-- Two vaults in gopass.
abbrev pub two_vaults : Config
two_vaults = record one_vault {
  vaults =
      (
        codes "work",
        record { vault_type = codes "gopass"; store = codes "w"; account = []; service = [] },
      )
      ∷ (
        codes "home",
        record { vault_type = codes "gopass"; store = codes "h"; account = []; service = [] },
      )
      ∷ [];
}

load_plugins-TwoOf_example : (load_plugins daemon launcher binaries two_vaults fresh).1 ≢ ok tt
unfolding lookup text_eq
load_plugins-TwoOf_example =
    load_plugins-TwoOf daemon launcher binaries two_vaults (codes "gopass") (codes "good") fresh
      refl (inl (refl, inl refl))

abbrev pub no_vaults : Config
no_vaults = record one_vault { vaults = [] }
