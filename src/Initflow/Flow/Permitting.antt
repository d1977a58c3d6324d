-- ===== src/Initflow/Flow/Permitting.antt =====
-- That the permissions which the wizard of internal/initflow/flow.go installs are there at its end.
use locksmith.Common.{
  ◌≡◌, ◌∙◌, refl, ap, sym, subst, Bool, true, false, ◌&&◌, inl, inr, Option, ok, Bool-cases, arith,
  All, not,
}
use locksmith.Common.Text.{Text, codes, text_eq, text_eq_iff}
use locksmith.Common.Paths.{join_path}
use locksmith.Common.Assoc.{lookup}
use locksmith.Initflow.Agents.{DetectedAgent, Faults}
use locksmith.Initflow.Hooks.{find_hook_cmd, merge_settings, settings_or_new, add_hook}
use locksmith.Initflow.Json.{Members, get-set_member}
use locksmith.Initflow.Sandbox.{
  has_item, allow_list_of, locksmith_allow_list, install_claude_sandbox,
  install_claude_sandbox-IsAllowed,
}
use locksmith.Initflow.Flow.{InitOptions, InitResult, Prompter, Machine, Home, installing_sandbox}
use locksmith.Initflow.Flow.Planning.{claude_code, claude_settings}
use locksmith.Initflow.Flow.Applying.{
  Done, keep_settings, merge_hook, apply_sandbox, install_sandbox_permissions, apply_hook,
  apply_agent, apply_init,
}
use locksmith.Initflow.Flow.Stable.{
  IsStable, any_agent, hook-holds, agents-reached, apply_init-reached,
}
use locksmith.Initflow.Flow.Steps.{
  put_keeps, put_puts, next_then, next_first, config_settings, run_init-IsRun,
}
use locksmith.Initflow.Flow.Running.{run_init}

-- Each of Locksmith's permissions is in the allowlist of a settings file.
abbrev pub Permits : Option Members → Type 0
Permits file =
    All (λ p. has_item p (allow_list_of (settings_or_new file)) ≡ true) locksmith_allow_list

abbrev pub IsPermitted : Text → Home → Type 0
IsPermitted path h = Permits (lookup path h.settings)

-- Claude Code, with its settings at this path.
unfoldable pub is_claude_at : Text → DetectedAgent → Bool
is_claude_at path a =
    text_eq a.name claude_code && text_eq (join_path a.config_dir (codes "settings.json")) path

sandbox-Permits : (file : Option Members) → Permits (install_claude_sandbox true file).0
sandbox-Permits file =
    (install_claude_sandbox-IsAllowed true file (unfold install_claude_sandbox in refl)).0.allowed

sandbox_keeps :
    (written : Bool) (file : Option Members)
    → Permits file
    → Permits (install_claude_sandbox written file).0
unfolding install_claude_sandbox
sandbox_keeps true file k = sandbox-Permits file
sandbox_keeps false file k = k

allow_list-add_hook : (cmd : Text) (s : Members) → allow_list_of (add_hook cmd s) ≡ allow_list_of s
unfolding allow_list_of add_hook text_eq
allow_list-add_hook cmd s = rw get-set_member refl

merge_keeps :
    (cmd : Text) (made written : Bool) (file : Option Members)
    → Permits file
    → Permits (merge_settings cmd made written file).0
unfolding merge_settings
merge_keeps cmd false written file k = k
merge_keeps cmd true written file k = elim (Bool-cases (find_hook_cmd cmd (settings_or_new file))) [
  | inl there ↦ rw there k
  | inr new ↦ rw new (elim (Bool-cases written) [
    | inr failed ↦ rw failed k
    | inl done ↦ rw done (
        unfold settings_or_new in
        subst (λ l. All (λ p. has_item p l ≡ true) locksmith_allow_list)
          (sym (allow_list-add_hook cmd (settings_or_new file))) k)
  ])
]

module _ (faults : Faults) (r : InitResult) (home_dir path : Text) where
  IsPermitted-IsStable : IsStable faults r home_dir (IsPermitted path)
  unfolding merge_hook keep_settings
  IsPermitted-IsStable = record {
    on_files = λ h files k. k;
    on_binaries = λ h binaries k. k;
    on_sandbox = λ h path' written k.
        put_keeps Permits path path' _ h.settings k
          (sandbox_keeps written (lookup path' h.settings));
    on_hook = λ h k.
        put_keeps Permits path _ _ h.settings k
          (merge_keeps _ _ _ (lookup (claude_settings home_dir) h.settings));
    on_config =
        λ h k. subst (λ s. Permits (lookup path s)) (sym (config_settings faults r home_dir h)) k;
  }

  -- The installation at this path.
  permits :
      (written : Bool) (h : Home)
      → (keep_settings installing_sandbox path h
          (install_claude_sandbox written (lookup path h.settings))).1
        ≡ ok tt
      → IsPermitted path
          (keep_settings installing_sandbox path h
            (install_claude_sandbox written (lookup path h.settings))).0
  unfolding keep_settings install_claude_sandbox
  permits false h done = absurd (cc)
  permits true h done =
      put_puts Permits path _ h.settings
        (unfold install_claude_sandbox in sandbox-Permits (lookup path h.settings))

  sandbox-IsPermitted :
      (a : DetectedAgent) (h : Home)
      → r.sandbox_enabled ≡ true
      → is_claude_at path a ≡ true
      → (apply_sandbox faults r a h).1 ≡ ok tt
      → IsPermitted path (apply_sandbox faults r a h).0
  unfolding is_claude_at
  sandbox-IsPermitted a h on at_path done =
      let named : text_eq a.name claude_code ≡ true = ground arith in
      let there : join_path a.config_dir (codes "settings.json") ≡ path =
        (text_eq_iff (join_path a.config_dir (codes "settings.json")) path).0 (ground arith) in
      let step : apply_sandbox faults r a h
          ≡ keep_settings installing_sandbox path h
              (install_claude_sandbox (not (faults.no_write path)) (lookup path h.settings)) =
        unfold apply_sandbox install_sandbox_permissions in rw (on, named, there) refl in
      subst (λ (d : Done). d.1 ≡ ok tt → IsPermitted path d.0) (sym step)
        (permits (not (faults.no_write path)) h) done

  agent-IsPermitted :
      (a : DetectedAgent) (h : Home)
      → r.sandbox_enabled ≡ true
      → is_claude_at path a ≡ true
      → (apply_agent faults r home_dir a h).1 ≡ ok tt
      → IsPermitted path (apply_agent faults r home_dir a h).0
  unfolding apply_agent
  agent-IsPermitted a h on at_path = next_then (IsPermitted path) _ _ (λ x.
      next_first (IsPermitted path) (apply_sandbox faults r a x) (apply_hook faults r home_dir a)
        (sandbox-IsPermitted a x on at_path)
        (hook-holds faults r home_dir (IsPermitted path) IsPermitted-IsStable a))

apply_init-IsPermitted :
    (machine : Machine) (r : InitResult) (home_dir path : Text) (p : Prompter) (auto : Bool)
    (h : Home)
    → r.sandbox_enabled ≡ true
    → any_agent (is_claude_at path) r.selected_agents ≡ true
    → (apply_init machine r home_dir p auto h).1 ≡ ok tt
    → IsPermitted path (apply_init machine r home_dir p auto h).0
apply_init-IsPermitted machine r home_dir path p auto h on selected =
    apply_init-reached machine r home_dir (IsPermitted path)
      (IsPermitted-IsStable machine.faults r home_dir path) p auto h
      (λ x.
        agents-reached machine.faults r home_dir (IsPermitted path)
          (IsPermitted-IsStable machine.faults r home_dir path) (is_claude_at path)
          r.selected_agents x (λ a y. agent-IsPermitted machine.faults r home_dir path a y on)
          selected)

-- After a run of the wizard that succeeds with sandbox permissions wanted, the allowlist in the settings
-- of each selected Claude Code has all of Locksmith's permissions, whatever else the run has written,
-- into the same file or another.
pub run_init-IsPermitted :
    (machine : Machine) (opts : InitOptions) (p : Prompter) (home : Home) (r : InitResult)
    (path : Text)
    → (run_init machine opts p home).result ≡ ok r
    → r.sandbox_enabled ≡ true
    → any_agent (is_claude_at path) r.selected_agents ≡ true
    → IsPermitted path (run_init machine opts p home).home
run_init-IsPermitted machine opts p home r path done on selected =
    let run = run_init-IsRun machine opts p home r done in
    subst (IsPermitted path) (sym run.leaves) (
      apply_init-IsPermitted machine run.planned run.home_dir path p opts.auto home
        (ap (λ x. x.sandbox_enabled) run.is_result ∙ on)
        (ap (λ x. any_agent (is_claude_at path) x.selected_agents) run.is_result ∙ selected)
        run.ended)
