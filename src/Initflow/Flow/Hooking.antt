-- ===== src/Initflow/Flow/Hooking.antt =====
-- That the hook which the wizard of internal/initflow/flow.go installs is there at its end.
use locksmith.Common.{
  ◌≡◌, ◌∙◌, refl, ap, sym, subst, Bool, true, false, not, ◌&&◌, ◌||◌, List, [], ◌∷◌, inl, inr,
  Option, none, some, ok, Bool-cases, arith,
}
use locksmith.Common.Text.{Text, text_eq}
use locksmith.Common.Assoc.{Map, lookup}
use locksmith.Initflow.Agents.{DetectedAgent, Faults}
use locksmith.Initflow.Hooks.{
  is_installed, find_hook_cmd, merge_settings, settings_or_new, merge_settings-IsMerged,
  installed_again,
}
use locksmith.Initflow.Json.{Members, get-set_member}
use locksmith.Initflow.Sandbox.{install_claude_sandbox, allow_all}
use locksmith.Initflow.Flow.{InitOptions, InitResult, Prompter, Machine, Home, merging_hook}
use locksmith.Initflow.Flow.Planning.{claude_code, hook_cmd, claude_settings}
use locksmith.Initflow.Flow.Applying.{
  Done, put_settings, keep_settings, install_hook, merge_hook, apply_claude_hook, apply_sandbox,
  apply_hook, apply_agent, apply_init, installs_claude_hook,
}
use locksmith.Initflow.Flow.Stable.{
  IsStable, any_agent, agents-reached, apply_init-holds, apply_init-reached,
}
use locksmith.Initflow.Flow.Steps.{
  put_keeps, put_puts, unwrap_ok, next_then, config_settings, run_init-IsRun,
}
use locksmith.Initflow.Flow.Running.{run_init}

-- The hook is in the settings of Claude Code in the home directory.
unfoldable pub has_hook : Text → Home → Bool
has_hook home_dir h =
    is_installed (hook_cmd home_dir) (lookup (claude_settings home_dir) h.settings)

abbrev IsHooked : Text → Home → Type 0
IsHooked home_dir h = has_hook home_dir h ≡ true

find-allow_all :
    (cmd : Text) (perms : List Text) (s : Members)
    → find_hook_cmd cmd (allow_all perms s) ≡ find_hook_cmd cmd s
unfolding find_hook_cmd allow_all text_eq
find-allow_all cmd perms s = rw get-set_member refl

sandbox_keeps :
    (cmd : Text) (written : Bool) (file : Option Members)
    → is_installed cmd file ≡ true
    → is_installed cmd (install_claude_sandbox written file).0 ≡ true
unfolding install_claude_sandbox is_installed settings_or_new
sandbox_keeps cmd false file h = h
sandbox_keeps cmd true none h = absurd (cc)
sandbox_keeps cmd true (some s) h = find-allow_all cmd _ s ∙ h

merge_keeps :
    (cmd : Text) (made written : Bool) (file : Option Members)
    → is_installed cmd file ≡ true
    → is_installed cmd (merge_settings cmd made written file).0 ≡ true
unfolding is_installed
merge_keeps cmd made written none h = absurd (cc)
merge_keeps cmd made written (some s) h = rw (installed_again cmd s made written h) h

put_installed :
    (cmd path : Text) (file : Option Members) (m : Map Members)
    → is_installed cmd file ≡ true
    → is_installed cmd (lookup path (put_settings path file m)) ≡ true
unfolding is_installed
put_installed cmd path none m h = absurd (cc)
put_installed cmd path (some f) m h = put_puts (λ x. is_installed cmd x ≡ true) path f m h

module _ (faults : Faults) (r : InitResult) (home_dir : Text) where
  IsHooked-IsStable : IsStable faults r home_dir (IsHooked home_dir)
  unfolding has_hook merge_hook keep_settings
  IsHooked-IsStable = record {
    on_files = λ h files k. k;
    on_binaries = λ h binaries k. k;
    on_sandbox = λ h path written k.
        put_keeps (λ f. is_installed (hook_cmd home_dir) f ≡ true) _ path _ h.settings k
          (sandbox_keeps _ written (lookup path h.settings));
    on_hook = λ h k.
        put_keeps (λ f. is_installed (hook_cmd home_dir) f ≡ true) _ _ _ h.settings k
          (merge_keeps _ _ _ (lookup (claude_settings home_dir) h.settings));
    on_config = λ h k. rw (config_settings faults r home_dir h) k;
  }

  merged :
      (h : Home)
      → (merge_hook faults home_dir h).1 ≡ ok tt
      → IsHooked home_dir (merge_hook faults home_dir h).0
  unfolding has_hook merge_hook keep_settings
  merged h done =
      put_installed _ _ _ h.settings
        (merge_settings-IsMerged _ _ _ (lookup (claude_settings home_dir) h.settings)
          (unwrap_ok merging_hook _ done)).installed

  sets : DetectedAgent → Bool
  sets a =
      text_eq a.name claude_code && (not r.claude_hook_already_present && r.claude_hook_confirmed)

  hook-IsHooked :
      (a : DetectedAgent) (h : Home)
      → sets a ≡ true
      → (apply_hook faults r home_dir a h).1 ≡ ok tt
      → IsHooked home_dir (apply_hook faults r home_dir a h).0
  unfolding sets
  hook-IsHooked a h s done =
      let named : text_eq a.name claude_code ≡ true = ground arith in
      let absent : r.claude_hook_already_present ≡ false = ground arith in
      let yes_ : r.claude_hook_confirmed ≡ true = ground arith in
      let step : apply_hook faults r home_dir a h ≡ install_hook faults home_dir h =
        unfold apply_hook apply_claude_hook in rw (named, absent, yes_) refl in
      subst (λ (d : Done). d.1 ≡ ok tt → IsHooked home_dir d.0) (sym step)
        (unfold install_hook in next_then (IsHooked home_dir) _ (merge_hook faults home_dir) merged)
        done

  agent-IsHooked :
      (a : DetectedAgent) (h : Home)
      → sets a ≡ true
      → (apply_agent faults r home_dir a h).1 ≡ ok tt
      → IsHooked home_dir (apply_agent faults r home_dir a h).0
  unfolding apply_agent
  agent-IsHooked a h s = next_then (IsHooked home_dir) _ _ (λ x.
      next_then (IsHooked home_dir) (apply_sandbox faults r a x) (apply_hook faults r home_dir a)
        (λ y. hook-IsHooked a y s))

  installs_any : (as_ : List DetectedAgent) → installs_claude_hook r as_ ≡ any_agent sets as_
  unfolding installs_claude_hook any_agent sets
  installs_any [] = refl
  installs_any (a ∷ as_) = rw (installs_any as_) refl

module _ (machine : Machine) (r : InitResult) (home_dir : Text) (p : Prompter) (auto : Bool) where
  apply_init-IsHooked :
      (h : Home)
      → installs_claude_hook r r.selected_agents ≡ true
      → (apply_init machine r home_dir p auto h).1 ≡ ok tt
      → IsHooked home_dir (apply_init machine r home_dir p auto h).0
  apply_init-IsHooked h s =
      apply_init-reached machine r home_dir (IsHooked home_dir)
        (IsHooked-IsStable machine.faults r home_dir) p auto h
        (λ x.
          agents-reached machine.faults r home_dir (IsHooked home_dir)
            (IsHooked-IsStable machine.faults r home_dir) (sets machine.faults r home_dir)
            r.selected_agents x (agent-IsHooked machine.faults r home_dir)
            (sym (installs_any machine.faults r home_dir r.selected_agents) ∙ s))

-- After a run of the wizard that succeeds, the hook is in the settings of Claude Code if it was there
-- before or if the result says that it was installed, whatever else the run has written, into the same
-- file or another.
pub run_init-hooked :
    (machine : Machine) (opts : InitOptions) (p : Prompter) (home : Home) (home_dir : Text)
    (r : InitResult)
    → machine.user_home_dir ≡ some home_dir
    → (run_init machine opts p home).result ≡ ok r
    → (has_hook home_dir home || r.claude_hook_installed) ≡ true
    → has_hook home_dir (run_init machine opts p home).home ≡ true
run_init-hooked machine opts p home home_dir r e done either =
    let run = run_init-IsRun machine opts p home r done in
    let here : run.home_dir ≡ home_dir = cc (run.in_home, e) in
    subst (λ x. IsHooked x (run_init machine opts p home).home) here
      (subst (IsHooked run.home_dir) (sym run.leaves) (elim (Bool-cases (has_hook home_dir home)) [
        | inl before ↦
            apply_init-holds machine run.planned run.home_dir (IsHooked run.home_dir)
              (IsHooked-IsStable machine.faults run.planned run.home_dir) p opts.auto home
              (subst (λ x. IsHooked x home) (sym here) before)
        | inr not_yet ↦
            apply_init-IsHooked machine run.planned run.home_dir p opts.auto home
              (ap (λ x. x.claude_hook_installed) run.is_result ∙ (rw not_yet at either)) run.ended
      ]))
