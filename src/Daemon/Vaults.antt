-- ===== src/Daemon/Vaults.antt =====
-- internal/daemon/server.go: VaultList, VaultHealth and ReloadConfig. What a provider's Info and
-- HealthCheck answer within their timeout is an argument.
use locksmith.Common.{
  ◌≡◌, ◌∙◌, refl, ap, Bool, false, List, [], ◌∷◌, map, inl, inr, Option, none, some, Result, ok,
  err, if◌then◌else◌, Bool-cases, Option-cases, Result-cases,
}
use locksmith.Common.Text.{Text, text_eq, text_eq_iff}
use locksmith.Common.Assoc.{Map, lookup}
use locksmith.Plugin.Compat.{Info, CompatWarning}
use locksmith.Plugin.Manager
use locksmith.Plugin.Manager.{Manager, Running, types, cached_info, warnings}

pub record VaultInfo : Type 0 where
  pub name : Text
  pub vault_type : Text
  pub version : Text
  pub platforms : List Text

pub data HealthMessage : Type 0 where
  no_provider : Manager.Error → HealthMessage
  check_failed : Text → HealthMessage
  said : Text → HealthMessage

pub record VaultHealthInfo : Type 0 where
  pub name : Text
  pub available : Bool
  pub message : HealthMessage
  pub compat_warnings : List CompatWarning

pub data ReloadError (E : Type 0) : Type 0 where
  unimplemented : ReloadError E
  reload_failed : E → ReloadError E

unfoldable pub bare_info : Text → VaultInfo
bare_info vault_type = record {
  name = vault_type;
  vault_type = vault_type;
  version = [];
  platforms = [];
}

unfoldable pub full_info : Text → Info → VaultInfo
full_info vault_type pi = record {
  name = vault_type;
  vault_type = vault_type;
  version = pi.version;
  platforms = pi.platforms;
}

-- ReloadConfig, of what Reload returns; `none` where there is no reloader.
unfoldable pub reload_config :
    {E : Type 0} → Option (Result E (Unit {0})) → Result (ReloadError E) (Unit {0})
reload_config none = err unimplemented
reload_config (some (err e)) = err (reload_failed e)
reload_config (some (ok u)) = ok tt

module _ {P : Type 0} (ask_info : P → Result Text Info)
    (health_check : P → Result Text (Bool × Text)) where
  -- The provider is asked where no info has been cached.
  unfoldable pub asked_info : Text → Result Manager.Error P → VaultInfo
  asked_info vault_type (err e) = bare_info vault_type
  asked_info vault_type (ok provider) = elim (ask_info provider) [
    | err e ↦ bare_info vault_type
    | ok pi ↦ full_info vault_type pi
  ]

  -- One round of the loop of VaultList.
  unfoldable pub vault_info : Manager P → Text → VaultInfo
  vault_info m vault_type = elim (cached_info vault_type m) [
    | some pi ↦ full_info vault_type pi
    | none ↦ asked_info vault_type (Manager.get vault_type m)
  ]

  -- VaultList
  unfoldable pub vault_list : Option (Manager P) → List VaultInfo
  vault_list none = []
  vault_list (some m) = map (vault_info m) (types m)

  unfoldable pub checked : Text → List CompatWarning → Result Manager.Error P → VaultHealthInfo
  checked vault_type ws (err e) = record {
    name = vault_type;
    available = false;
    message = no_provider e;
    compat_warnings = ws;
  }
  checked vault_type ws (ok provider) = elim (health_check provider) [
    | err e ↦ record {
      name = vault_type;
      available = false;
      message = check_failed e;
      compat_warnings = ws;
    }
    | ok h ↦ record { name = vault_type; available = h.0; message = said h.1; compat_warnings = ws }
  ]

  -- One round of the loop of VaultHealth.
  unfoldable pub health_of : Manager P → Text → VaultHealthInfo
  health_of m vault_type = checked vault_type (warnings vault_type m) (Manager.get vault_type m)

  -- VaultHealth
  unfoldable pub vault_health : Option (Manager P) → List VaultHealthInfo
  vault_health none = []
  vault_health (some m) = map (health_of m) (types m)

  -- The report on one vault type, from the first entry of that name.
  unfoldable pub report : Text → List VaultHealthInfo → Option VaultHealthInfo
  report vault_type [] = none
  report vault_type (h ∷ hs) = if text_eq h.name vault_type then some h else report vault_type hs

  checked-name :
      (t : Text) (ws : List CompatWarning) (r : Result Manager.Error P) → (checked t ws r).name ≡ t
  unfolding checked
  checked-name t ws (err e) = refl
  checked-name t ws (ok p) = elim (Result-cases (health_check p)) [
    | inl (h, done) ↦ rw (done, checked) refl
    | inr (e, failed) ↦ rw (failed, checked) refl
  ]

  -- What the report on a running plugin says.
  unfoldable pub report_of : Text → Running P → VaultHealthInfo
  report_of vault_type rp = checked vault_type rp.warnings (ok rp.provider)

  health_of-running :
      (m : Manager P) (t : Text) (rp : Running P)
      → lookup t m.plugins ≡ some rp
      → health_of m t ≡ report_of t rp
  unfolding health_of report_of
  health_of-running m t rp there =
      let ws : warnings t m ≡ rp.warnings = unfold warnings in rw (there, warnings) refl in
      let got : Manager.get t m ≡ ok rp.provider =
        unfold Manager.get in rw (there, Manager.get) refl in
      rw (ws, got) refl

  report-map :
      (m : Manager P) (t : Text) (es : Map (Running P))
      → report t (map (health_of m) (map (λ (e : Text × Running P). e.0) es))
        ≡ elim (lookup t es) [ none ↦ none | some rp ↦ some (health_of m t) ]
  unfolding report lookup health_of checked
  report-map m t [] = refl
  report-map m t ((k, rp) ∷ es) =
      let name : (health_of m k).name ≡ k =
        unfold health_of in checked-name k (warnings k m) (Manager.get k m) in
      rw name (elim (Bool-cases (text_eq k t)) [
        | inl hit ↦ rw hit (ap (λ x. some (health_of m x)) ((text_eq_iff k t).0 hit))
        | inr miss ↦ rw miss (report-map m t es)
      ])

  -- `VaultHealth` reports on a vault type exactly when its plugin runs, and then what that plugin's
  -- own health check answers, or that it failed, with the warnings that its launch gave.
  pub report-vault_health :
      (m : Manager P) (t : Text)
      → report t (vault_health (some m))
        ≡ elim (lookup t m.plugins) [ none ↦ none | some rp ↦ some (report_of t rp) ]
  unfolding vault_health types
  report-vault_health m t = report-map m t m.plugins ∙ elim (Option-cases (lookup t m.plugins)) [
    | inl gone ↦ rw gone refl
    | inr (rp, there) ↦ rw there (ap (λ x. some x) (health_of-running m t rp there))
  ]
