-- ===== src/Initflow/Flow/Unattended.antt =====
-- Auto mode of the wizard of internal/initflow/flow.go.
use locksmith.Common.{
  ◌≡◌, ◌∙◌, refl, sym, ap, subst, Bool, true, List, [], ◌∷◌, inl, inr, Result, ok, err, arith,
  if◌then◌else◌, Option-cases,
}
use locksmith.Common.Text.{Text}
use locksmith.Common.Assoc.{lookup}
use locksmith.Initflow.Flow.{
  InitOptions, InitResult, Prompter, Machine, Home, Question, Error, Flow, ◌>>=◌, give, ask,
  continue_with, ExistingConfigAction, action_continue, action_overwrite, action_exit,
}
use locksmith.Initflow.Flow.Planning
use locksmith.Initflow.Flow.Planning.{plan_init, plan_rest, plan_agents, plan_consent}
use locksmith.Initflow.Flow.Applying.{apply_init, extract_bundled, extract_options, Done}
use locksmith.Initflow.Flow.Running.{Outcome, run_init, run_plan, applied}

abbrev unattended : Text → Bool → InitOptions
unattended agent_only skip_agents = record {
  auto = true;
  agent_only = agent_only;
  skip_agents = skip_agents;
}

-- A step that asks nothing.
abbrev Silent : {A : Type 0} → Flow A → Type 0
Silent m = (log : List Question) → (m log).0 ≡ log

continue-Silent :
    {A B : Type 0} (log : List Question) (r : Result Error A) (f : A → Flow B)
    → ((a : A) → Silent (f a))
    → (continue_with (log, r) f).0 ≡ log
unfolding continue_with
continue-Silent log (err e) f h = refl
continue-Silent log (ok a) f h = h a log

bind-Silent :
    {A B : Type 0} (m : Flow A) (f : A → Flow B)
    → Silent m
    → ((a : A) → Silent (f a))
    → Silent (m >>= f)
bind-Silent m f hm hf log =
    ap (λ l. (continue_with (l, (m log).1) f).0) (hm log) ∙ continue-Silent log (m log).1 f hf

module _ (machine : Machine) (home : Home) (agent_only : Text) (skip_agents : Bool)
    (p p' : Prompter) where
  abbrev opts : InitOptions
  opts = unattended agent_only skip_agents

  same_plan :
      (home_dir : Text)
      → plan_init machine home opts p home_dir ≡ plan_init machine home opts p' home_dir
  unfolding plan_init plan_rest plan_agents plan_consent Planning.choose_config_dir
      Planning.check_existing Planning.preexisted Planning.select_vaults
      Planning.select_gpg_pinentry Planning.select_agents Planning.choose_sandbox Planning.confirm
      Planning.shell_hook_consent Planning.claude_hook_consent Planning.claude_consent
      Planning.auto_vaults Planning.matching_agents Planning.found_agents Planning.shell_installed
      Planning.has_claude
  same_plan home_dir = refl

  preexisted-Silent :
      (action : ExistingConfigAction) → Silent (Planning.preexisted machine home opts p action)
  unfolding Planning.preexisted
  preexisted-Silent action_exit log = refl
  preexisted-Silent action_continue log = refl
  preexisted-Silent action_overwrite log = refl

  existing-Silent :
      (config_path : Text) → Silent (Planning.check_existing machine home opts p config_path)
  unfolding Planning.check_existing
  existing-Silent config_path log = elim (Option-cases (lookup config_path home.configs)) [
    | inl e ↦ rw (e, Planning.check_existing) refl
    | inr (c, e) ↦
        rw (e, Planning.check_existing)
          (bind-Silent
            (give
              (if machine.config_is_valid config_path then action_continue else action_overwrite))
            (Planning.preexisted machine home opts p) (λ log. refl) preexisted-Silent log)
  ]

  agents-Silent : (home_dir : Text) → Silent (Planning.select_agents machine home opts p home_dir)
  unfolding Planning.select_agents
  agents-Silent home_dir log = ground arith

  sandbox-Silent :
      (agents : List locksmith.Initflow.Agents.DetectedAgent)
      → Silent (Planning.choose_sandbox machine home opts p agents)
  unfolding Planning.choose_sandbox
  sandbox-Silent [] log = refl
  sandbox-Silent (a ∷ as_) log = refl

  shell-Silent : (r : InitResult) → Silent (Planning.shell_hook_consent machine home opts p r)
  unfolding Planning.shell_hook_consent
  shell-Silent r log = ground arith

  claude-Silent :
      (home_dir : Text) (r : InitResult)
      → Silent (Planning.claude_hook_consent machine home opts p home_dir r)
  unfolding Planning.claude_hook_consent Planning.claude_consent
  claude-Silent home_dir r log = ground arith

  plan-Silent : (home_dir : Text) → Silent (plan_init machine home opts p home_dir)
  unfolding plan_init plan_rest plan_agents plan_consent Planning.choose_config_dir
      Planning.select_vaults Planning.select_gpg_pinentry Planning.confirm
  plan-Silent home_dir =
      bind-Silent _ _ (λ log. refl)
        (λ dir. bind-Silent _ _ (existing-Silent _) (λ kept.
          bind-Silent _ _ (λ log. refl)
            (λ vaults.
              bind-Silent _ _ (λ log. refl)
                (λ gpg. bind-Silent _ _ (agents-Silent home_dir) (λ agents.
                  bind-Silent _ _ (sandbox-Silent agents) (λ sandbox.
                    bind-Silent _ _ (λ log. refl)
                      (λ u. bind-Silent _ _ (shell-Silent _) (λ r. claude-Silent home_dir r))))))))

  applied-asked : (r : InitResult) (log : List Question) (d : Done) → (applied r log d).asked ≡ log
  unfolding applied
  applied-asked r log (h, err e) = refl
  applied-asked r log (h, ok u) = refl

  same_extract :
      (vaults : List Text) (home_dir : Text)
      → extract_options p true home_dir vaults ≡ extract_options p' true home_dir vaults
  unfolding extract_options
  same_extract vaults home_dir = refl

  bundle_same :
      (b : locksmith.Initflow.Flow.BundleFile) (home_dir : Text) (vaults : List Text) (h : Home)
      → extract_bundled b p true home_dir vaults h ≡ extract_bundled b p' true home_dir vaults h
  unfolding extract_bundled extract_options
  bundle_same locksmith.Initflow.Flow.empty_bundle home_dir vaults h = refl
  bundle_same (locksmith.Initflow.Flow.bad_bundle e) home_dir vaults h = refl
  bundle_same (locksmith.Initflow.Flow.good_bundle w) home_dir vaults h = refl

  same_apply :
      (r : InitResult) (home_dir : Text) (h : Home)
      → apply_init machine r home_dir p true h ≡ apply_init machine r home_dir p' true h
  unfolding apply_init
  same_apply r home_dir h = rw (bundle_same machine.bundle home_dir r.selected_vaults h) refl

  abbrev Unasked : (Prompter → Outcome) → Type 0
  Unasked run = (run p ≡ run p') × ((run p).asked ≡ [])

  plan_same :
      (home_dir : Text) (log : List Question) (r : Result Error InitResult)
      → log ≡ []
      → Unasked (λ q. run_plan machine opts q home_dir home (log, r))
  unfolding run_plan
  plan_same home_dir log (err e) h = (refl, h)
  plan_same home_dir log (ok r) h = (
    ap (applied r log) (same_apply r home_dir home),
    applied-asked r log (apply_init machine r home_dir p true home) ∙ h,
  )

  run_same : Unasked (λ q. run_init machine opts q home)
  unfolding run_init
  run_same = elim (Option-cases machine.user_home_dir) [
    | inl e ↦ rw (e, run_init) (refl, refl)
    | inr (home_dir, e) ↦
        let plan : List Question × Result Error InitResult =
          plan_init machine home opts p home_dir [] in
        let u = plan_same home_dir plan.0 plan.1 (plan-Silent home_dir []) in
        rw (e, run_init)
          (u.0 ∙ ap (λ m. run_plan machine opts p' home_dir home (m [])) (same_plan home_dir), u.1)
  ]

-- In auto mode the wizard asks nothing, not even about a binary that differs from the bundled one: what
-- it leaves on disk and what it returns are the same whatever the prompter would answer.
pub run_init-auto :
    (machine : Machine) (home : Home) (opts : InitOptions) (p p' : Prompter)
    → opts.auto ≡ true
    → (run_init machine opts p home ≡ run_init machine opts p' home)
      × ((run_init machine opts p home).asked ≡ [])
run_init-auto machine home opts p p' auto =
    subst
      (λ b.
        (run_init machine (record opts { auto = b }) p home
          ≡ run_init machine (record opts { auto = b }) p' home)
        × ((run_init machine (record opts { auto = b }) p home).asked ≡ []))
      (sym auto) (run_same machine home opts.agent_only opts.skip_agents p p')
