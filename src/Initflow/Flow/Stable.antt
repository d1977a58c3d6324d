-- ===== src/Initflow/Flow/Stable.antt =====
-- What holds of the files throughout applyInit of internal/initflow/flow.go.
use locksmith.Common.{
  ◌≡◌, ◌∙◌, refl, ap, sym, subst, Bool, true, false, ◌||◌, List, [], ◌∷◌, inl, inr, Option, none,
  some, ok, err, Bool-cases,
}
use locksmith.Common.Text.{Text, codes, text_eq}
use locksmith.Common.Assoc.{lookup}
use locksmith.Bundled
use locksmith.Initflow.Agents
use locksmith.Initflow.Agents.{DetectedAgent, Faults, Files}
use locksmith.Initflow.Sandbox
use locksmith.Initflow.Flow.{
  InitResult, Prompter, Machine, Home, BundleFile, empty_bundle, bad_bundle, good_bundle,
  installing_instructions,
}
use locksmith.Initflow.Flow.Planning.{claude_code}
use locksmith.Initflow.Flow.Applying.{
  Done, next, put_settings, keep_files, keep_settings, keep_binaries, extract_bundled,
  write_config_file, install_hook, merge_hook, apply_claude_hook, install_sandbox_permissions,
  apply_sandbox, apply_hook, apply_agent, apply_agents, append_hook, apply_shell_hook, finish_init,
  apply_init,
}
use locksmith.Initflow.Flow.Steps.{next-holds, next_then, next_first, finish_ok}

unfoldable pub any_agent : (DetectedAgent → Bool) → List DetectedAgent → Bool
any_agent kind [] = false
any_agent kind (a ∷ as_) = kind a || any_agent kind as_

-- Each single write keeps it.
pub record IsStable (faults : Faults) (r : InitResult) (home_dir : Text) (P : Home → Type 0)
    : Type 0 where
  pub on_files : (h : Home) (files : Files) → P h → P (record h { files = files })
  pub on_binaries :
      (h : Home) (binaries : Bundled.Files) → P h → P (record h { binaries = binaries })
  pub on_sandbox :
      (h : Home) (path : Text) (written : Bool)
      → P h
      → P (record h {
        settings =
            put_settings path
              (Sandbox.install_claude_sandbox written (lookup path h.settings)).0
              h.settings;
      })
  pub on_hook : (h : Home) → P h → P (merge_hook faults home_dir h).0
  pub on_config : (h : Home) → P h → P (write_config_file faults r home_dir h).0

module _ (faults : Faults) (r : InitResult) (home_dir : Text) (P : Home → Type 0)
    (stable : IsStable faults r home_dir P) where
  pub claude_hook-holds : (h : Home) → P h → P (apply_claude_hook faults r home_dir h).0
  unfolding apply_claude_hook
  claude_hook-holds h k = elim (Bool-cases r.claude_hook_already_present) [
    | inl there ↦ rw there k
    | inr absent ↦ rw absent (elim (Bool-cases r.claude_hook_confirmed) [
      | inr no_ ↦ rw no_ k
      | inl yes_ ↦ rw yes_ (
          unfold install_hook keep_files in next-holds P _ _ (stable.on_files h _ k) stable.on_hook)
    ])
  ]

  pub sandbox-holds : (a : DetectedAgent) (h : Home) → P h → P (apply_sandbox faults r a h).0
  unfolding apply_sandbox install_sandbox_permissions keep_settings keep_files
  sandbox-holds a h k = elim (Bool-cases r.sandbox_enabled) [
    | inr off ↦ rw off k
    | inl on ↦ rw on (elim (Bool-cases (text_eq a.name claude_code)) [
      | inl claude ↦ rw claude (stable.on_sandbox h _ _ k)
      | inr other ↦ rw other (elim (Bool-cases (text_eq a.name (codes "Codex"))) [
        | inl codex ↦ rw codex (stable.on_files h _ k)
        | inr third ↦ rw third k
      ])
    ])
  ]

  pub hook-holds : (a : DetectedAgent) (h : Home) → P h → P (apply_hook faults r home_dir a h).0
  unfolding apply_hook
  hook-holds a h k = elim (Bool-cases (text_eq a.name claude_code)) [
    | inl claude ↦ rw claude (claude_hook-holds h k)
    | inr other ↦ rw other k
  ]

  pub agent-holds : (a : DetectedAgent) (h : Home) → P h → P (apply_agent faults r home_dir a h).0
  unfolding apply_agent
  agent-holds a h k =
      next-holds P
        (keep_files installing_instructions h (Agents.install_agent faults home_dir a h.files)) _
        (unfold keep_files in stable.on_files h _ k)
        (λ x kx. next-holds P (apply_sandbox faults r a x) _ (sandbox-holds a x kx) (hook-holds a))

  pub agents-holds :
      (as_ : List DetectedAgent) (h : Home) → P h → P (apply_agents faults r home_dir as_ h).0
  unfolding apply_agents
  agents-holds [] h k = k
  agents-holds (a ∷ as_) h k =
      next-holds P (apply_agent faults r home_dir a h) _ (agent-holds a h k) (agents-holds as_)

  -- What one agent of a kind brings about.
  pub agents-reached :
      (kind : DetectedAgent → Bool) (as_ : List DetectedAgent) (h : Home)
      → ((a : DetectedAgent) (x : Home)
          → kind a ≡ true
          → (apply_agent faults r home_dir a x).1 ≡ ok tt
          → P (apply_agent faults r home_dir a x).0)
      → any_agent kind as_ ≡ true
      → (apply_agents faults r home_dir as_ h).1 ≡ ok tt
      → P (apply_agents faults r home_dir as_ h).0
  unfolding apply_agents any_agent
  agents-reached kind [] h reached s done = absurd (cc)
  agents-reached kind (a ∷ as_) h reached s done = elim (Bool-cases (kind a)) [
    | inl this ↦
        next_first P (apply_agent faults r home_dir a h) _ (reached a h this) (agents-holds as_)
          done
    | inr later ↦
        next_then P (apply_agent faults r home_dir a h) _
          (λ x. agents-reached kind as_ x reached (rw later at s)) done
  ]

  appended-holds : (file : Option Text) (h : Home) → P h → P (append_hook faults r file h)
  unfolding append_hook
  appended-holds none h k = k
  appended-holds (some file) h k = stable.on_files h _ k

  shell-holds : (h : Home) → P h → P (apply_shell_hook faults r h)
  unfolding apply_shell_hook append_hook
  shell-holds h k = elim (Bool-cases r.shell_hook_already_present) [
    | inl there ↦ rw there k
    | inr absent ↦ rw absent (elim (Bool-cases r.shell_hook_install) [
      | inr no_ ↦ rw no_ k
      | inl yes_ ↦ rw yes_ (appended-holds r.shell_hook_rc_file h k)
    ])
  ]

  pub finish-holds : (d : Done) → P d.0 → P (finish_init faults r d).0
  unfolding finish_init
  finish-holds (h, err e) k = k
  finish-holds (h, ok _) k = shell-holds h k

  pub bundled-holds :
      (b : BundleFile) (p : Prompter) (auto : Bool) (vaults : List Text) (h : Home)
      → P h
      → P (extract_bundled b p auto home_dir vaults h).0
  unfolding extract_bundled keep_binaries
  bundled-holds empty_bundle p auto vaults h k = k
  bundled-holds (bad_bundle e) p auto vaults h k = k
  bundled-holds (good_bundle w) p auto vaults h k = stable.on_binaries h _ k

module _ (machine : Machine) (r : InitResult) (home_dir : Text) (P : Home → Type 0)
    (stable : IsStable machine.faults r home_dir P) where
  pub apply_init-holds :
      (p : Prompter) (auto : Bool) (h : Home) → P h → P (apply_init machine r home_dir p auto h).0
  unfolding apply_init
  apply_init-holds p auto h k = elim (Bool-cases (machine.faults.no_mkdir r.config_path)) [
    | inl shut ↦ rw shut k
    | inr opened ↦ rw opened (
        finish-holds machine.faults r home_dir P stable _ (
          next-holds P (extract_bundled machine.bundle p auto home_dir r.selected_vaults h) _
            (bundled-holds machine.faults r home_dir P stable machine.bundle p auto
              r.selected_vaults h k)
            (λ x kx.
              next-holds P (write_config_file machine.faults r home_dir x) _ (stable.on_config x kx)
                (agents-holds machine.faults r home_dir P stable r.selected_agents))))
  ]

  -- What the loop over the agents brings about is there at the end.
  pub apply_init-reached :
      (p : Prompter) (auto : Bool) (h : Home)
      → ((x : Home)
          → (apply_agents machine.faults r home_dir r.selected_agents x).1 ≡ ok tt
          → P (apply_agents machine.faults r home_dir r.selected_agents x).0)
      → (apply_init machine r home_dir p auto h).1 ≡ ok tt
      → P (apply_init machine r home_dir p auto h).0
  unfolding apply_init
  apply_init-reached p auto h reached done =
      elim (Bool-cases (machine.faults.no_mkdir r.config_path)) [
        | inl shut ↦ absurd (cc (rw (shut, apply_init) at done))
        | inr opened ↦
            let all : Done =
              next (extract_bundled machine.bundle p auto home_dir r.selected_vaults h) (λ x.
                next (write_config_file machine.faults r home_dir x)
                  (apply_agents machine.faults r home_dir r.selected_agents)) in
            let step : apply_init machine r home_dir p auto h ≡ finish_init machine.faults r all =
              unfold apply_init in rw opened refl in
            let agents_done : all.1 ≡ ok tt =
              finish_ok machine.faults r home_dir all (ap (λ d. d.1) (sym step) ∙ done) in
            subst (λ (d : Done). P d.0) (sym step)
              (finish-holds machine.faults r home_dir P stable all (
                next_then P _ _
                  (λ x. next_then P (write_config_file machine.faults r home_dir x) _ reached)
                  agents_done))
      ]
