-- ===== src/Initflow/Flow/Keeping.antt =====
-- What the wizard of internal/initflow/flow.go leaves alone when an existing configuration is kept.
use locksmith.Common.{◌≡◌, ◌∙◌, refl, sym, subst, ap, Bool, true, ok}
use locksmith.Common.Text.{Text}
use locksmith.Initflow.Flow.{InitOptions, InitResult, Prompter, Machine, Home}
use locksmith.Initflow.Flow.Applying.{keep_settings, write_config_file, merge_hook, apply_init}
use locksmith.Initflow.Flow.Steps.{run_init-IsRun}
use locksmith.Initflow.Flow.Stable.{IsStable, apply_init-holds}
use locksmith.Initflow.Flow.Running.{run_init}

-- The configurations and gpg-agent.conf are as they were.
abbrev pub IsKept : Home → Home → Type 0
IsKept h h' = (h'.configs ≡ h.configs) × (h'.gpg_conf ≡ h.gpg_conf)

module _ (machine : Machine) (r : InitResult) (home_dir : Text) (h : Home)
    (kept : r.config_preexisted ≡ true) where
  config-IsKept :
      (x : Home) → IsKept h x → IsKept h (write_config_file machine.faults r home_dir x).0
  unfolding write_config_file
  config-IsKept x k = rw kept k

  IsKept-IsStable : IsStable machine.faults r home_dir (IsKept h)
  IsKept-IsStable = record {
    on_files = λ x files k. k;
    on_binaries = λ x binaries k. k;
    on_sandbox = λ x path written k. k;
    on_hook = λ x k. unfold merge_hook keep_settings in k;
    on_config = config-IsKept;
  }

  apply-IsKept : (p : Prompter) (auto : Bool) → IsKept h (apply_init machine r home_dir p auto h).0
  apply-IsKept p auto =
      apply_init-holds machine r home_dir (IsKept h) IsKept-IsStable p auto h (refl, refl)

-- If the wizard succeeds and has kept an existing configuration, all configurations and gpg-agent.conf
-- are as they were, also where the user has agreed to have the pinentry configured.
pub run_init-IsKept :
    (machine : Machine) (opts : InitOptions) (p : Prompter) (home : Home) (r : InitResult)
    → (run_init machine opts p home).result ≡ ok r
    → r.config_preexisted ≡ true
    → IsKept home (run_init machine opts p home).home
run_init-IsKept machine opts p home r done kept =
    let run = run_init-IsRun machine opts p home r done in
    subst (IsKept home) (sym run.leaves) (
      apply-IsKept machine run.planned run.home_dir home
        (ap (λ x. x.config_preexisted) run.is_result ∙ kept) p opts.auto)
