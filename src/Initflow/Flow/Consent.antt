-- ===== src/Initflow/Flow/Consent.antt =====
-- What the wizard of internal/initflow/flow.go asks before it writes.
use locksmith.Common.{
  ◌≡◌, ◌≢◌, refl, sym, subst, Bool, true, false, List, [], ◌∷◌, inl, inr, Result, ok, err, wrap_err,
  Option-cases,
}
use locksmith.Common.Text.{Text}
use locksmith.Initflow.Flow.{
  InitOptions, InitResult, Prompter, Machine, Home, Question, Error, Flow, ◌>>=◌, continue_with,
  asks_summary,
}
use locksmith.Initflow.Flow.Planning.{
  plan_init, plan_rest, plan_agents, plan_consent, confirm, confirmed,
}
use locksmith.Initflow.Flow.Running.{Outcome, run_init, run_plan}

-- A step that ends by an error.
abbrev Fails : {A : Type 0} → Flow A → Type 0
Fails m = (log : List Question) → (e : Error) × ((m log).1 ≡ err e)

continue-Fails :
    {A B : Type 0} (r : List Question × Result Error A) (f : A → Flow B)
    → ((a : A) → Fails (f a))
    → (e : Error) × ((continue_with r f).1 ≡ err e)
unfolding continue_with
continue-Fails (log, err e) f h = (e, refl)
continue-Fails (log, ok a) f h = h a log

bind-Fails :
    {A B : Type 0} (m : Flow A) (f : A → Flow B) → ((a : A) → Fails (f a)) → Fails (m >>= f)
bind-Fails m f h log = continue-Fails (m log) f h

first_continue :
    {A B : Type 0} (log : List Question) (r : Result Error A) (f : A → Flow B)
    → (e : Error) × (r ≡ err e)
    → (e : Error) × ((continue_with (log, r) f).1 ≡ err e)
unfolding continue_with
first_continue log (err e) f h = (e, refl)
first_continue log (ok a) f (e, h) = absurd (cc)

first-Fails : {A B : Type 0} (m : Flow A) (f : A → Flow B) → Fails m → Fails (m >>= f)
first-Fails m f h log = first_continue (m log).0 (m log).1 f (h log)

abbrev interactive : Text → Bool → InitOptions
interactive agent_only skip_agents = record {
  auto = false;
  agent_only = agent_only;
  skip_agents = skip_agents;
}

-- The wizard without auto mode, where the user does not agree to the summary.
module _ (machine : Machine) (home : Home) (agent_only : Text) (skip_agents : Bool) (p : Prompter)
    (declined : (r : InitResult) → p.summary r ≢ ok true) where
  abbrev opts : InitOptions
  opts = interactive agent_only skip_agents

  answered :
      (log : List Question) (answer : Result Text Bool)
      → answer ≢ ok true
      → (e : Error) × ((continue_with
            (asks_summary ∷ log, wrap_err (Error.prompting asks_summary) answer)
            (confirmed machine home opts p)).1
          ≡ err e)
  unfolding continue_with confirmed
  answered log (err e) h = (_, refl)
  answered log (ok true) h = absurd (h refl)
  answered log (ok false) h = (_, refl)

  confirm-Fails : (r : InitResult) → Fails (confirm machine home opts p r)
  unfolding confirm
  confirm-Fails r log = answered log (p.summary r) (declined r)

  consent-Fails :
      (home_dir : Text) (r : InitResult) → Fails (plan_consent machine home opts p home_dir r)
  unfolding plan_consent
  consent-Fails home_dir r = first-Fails _ _ (confirm-Fails r)

  agents-Fails :
      (home_dir config_path : Text) (kept : Bool) (vaults : List Text) (gpg : Bool)
      → Fails (plan_agents machine home opts p home_dir config_path kept vaults gpg)
  unfolding plan_agents
  agents-Fails home_dir config_path kept vaults gpg =
      bind-Fails _ _ (λ agents. bind-Fails _ _ (λ sandbox. consent-Fails home_dir _))

  rest-Fails :
      (home_dir config_path : Text) (kept : Bool)
      → Fails (plan_rest machine home opts p home_dir config_path kept)
  unfolding plan_rest
  rest-Fails home_dir config_path kept =
      bind-Fails _ _
        (λ vaults. bind-Fails _ _ (λ gpg. agents-Fails home_dir config_path kept vaults gpg))

  plan-Fails : (home_dir : Text) → Fails (plan_init machine home opts p home_dir)
  unfolding plan_init
  plan-Fails home_dir = bind-Fails _ _ (λ dir. bind-Fails _ _ (λ kept. rest-Fails home_dir _ kept))

  -- The home is as it was, and there is an error.
  abbrev Untouched : Outcome → Type 0
  Untouched o = (o.home ≡ home) × ((e : Error) × (o.result ≡ err e))

  run_plan-Untouched :
      (home_dir : Text) (log : List Question) (r : Result Error InitResult)
      → (e : Error) × (r ≡ err e)
      → Untouched (run_plan machine opts p home_dir home (log, r))
  unfolding run_plan
  run_plan-Untouched home_dir log (err e) h = (refl, (e, refl))
  run_plan-Untouched home_dir log (ok r) (e, h) = absurd (cc)

  run-Untouched : Untouched (run_init machine opts p home)
  unfolding run_init
  run-Untouched = elim (Option-cases machine.user_home_dir) [
    | inl e ↦ rw (e, run_init) (refl, (_, refl))
    | inr (home_dir, e) ↦
        rw (e, run_init)
          (run_plan-Untouched home_dir (plan_init machine home opts p home_dir []).0
            (plan_init machine home opts p home_dir []).1 (plan-Fails home_dir []))
  ]

-- Outside auto mode the wizard writes nothing unless the user agrees to the summary: if every summary
-- that it can show is declined or cannot be answered, whatever else is answered, the files are as they
-- were and RunInit returns an error.
pub run_init-declined :
    (machine : Machine) (home : Home) (opts : InitOptions) (p : Prompter)
    → opts.auto ≡ false
    → ((r : InitResult) → p.summary r ≢ ok true)
    → ((run_init machine opts p home).home ≡ home)
      × ((e : Error) × ((run_init machine opts p home).result ≡ err e))
run_init-declined machine home opts p asks declined =
    subst
      (λ b.
        ((run_init machine (record opts { auto = b }) p home).home ≡ home)
        × ((e : Error) × ((run_init machine (record opts { auto = b }) p home).result ≡ err e)))
      (sym asks) (run-Untouched machine home opts.agent_only opts.skip_agents p declined)
