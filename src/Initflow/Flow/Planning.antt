-- ===== src/Initflow/Flow/Planning.antt =====
-- The part of RunInit of internal/initflow/flow.go that asks, up to applyInit.
use locksmith.Common.{
  Bool, true, false, not, ◌&&◌, ◌||◌, List, [], ◌∷◌, none, some, ok, err, if◌then◌else◌,
}
use locksmith.Common.Text.{Text, codes, text_eq, is_empty, to_lower}
use locksmith.Common.Paths.{join_path}
use locksmith.Common.Assoc.{lookup}
use locksmith.Initflow.Agents.{DetectedAgent, DetectedVault, detect_agents, detect_vaults}
use locksmith.Initflow.Gpg.{read_existing_pinentry}
use locksmith.Initflow.Hooks
use locksmith.Initflow.Shell
use locksmith.Initflow.Shell.{Shell, detect_shell, rc_file}
use locksmith.Initflow.Flow.{
  ExistingConfigAction, action_continue, action_overwrite, action_exit, InitOptions, InitResult,
  Prompter, Machine, Home, cancelled_by_user, Flow, ◌>>=◌, give, fail, ask, asks_existing_config,
  asks_config_location, asks_vaults, asks_agents, asks_sandbox, asks_summary, asks_gpg_pinentry,
  asks_shell_hook, asks_claude_hook,
}

abbrev pub claude_code : Text
claude_code = codes "Claude Code"

-- AgentMatches
unfoldable pub agent_matches : Text → Text → Bool
agent_matches name query =
    let ln = to_lower name in
    let lq = to_lower query in
    text_eq ln lq || (text_eq lq (codes "claude") && text_eq ln (codes "claude code"))

-- The settings that ClaudeHookInstaller changes, and the command that it installs.
abbrev pub claude_settings : Text → Text
claude_settings home_dir = join_path home_dir (codes ".claude/settings.json")

abbrev pub hook_cmd : Text → Text
hook_cmd home_dir = join_path home_dir (codes ".config/locksmith/agent-hook.sh")

module _ (machine : Machine) (home : Home) (opts : InitOptions) (p : Prompter) where
  unfoldable pub choose_config_dir : Text → Flow Text
  choose_config_dir default_dir =
      if opts.auto
      then give default_dir
      else ask asks_config_location (p.config_location default_dir)

  unfoldable pub preexisted : ExistingConfigAction → Flow Bool
  preexisted action_exit = fail cancelled_by_user
  preexisted action_continue = give true
  preexisted action_overwrite = give false

  -- The check of an existing configuration: whether it is kept.
  unfoldable pub check_existing : Text → Flow Bool
  check_existing config_path = elim (lookup config_path home.configs) [
    | none ↦ give false
    | some _ ↦
        let valid = machine.config_is_valid config_path in
        (if opts.auto
          then give (if valid then action_continue else action_overwrite)
          else ask asks_existing_config (p.existing_config config_path valid))
        >>= preexisted
  ]

  unfoldable pub auto_vaults : List DetectedVault → List Text
  auto_vaults [] = []
  auto_vaults (v ∷ vs) =
      let rest = auto_vaults vs in if v.detected && v.implemented then v.vault_type ∷ rest else rest

  -- selectVaults
  unfoldable pub select_vaults : Flow (List Text)
  select_vaults =
      if opts.auto
      then give (auto_vaults (detect_vaults machine.system))
      else ask asks_vaults (p.vault_selection (detect_vaults machine.system))

  unfoldable pub has_gopass : List Text → Bool
  has_gopass [] = false
  has_gopass (v ∷ vs) = text_eq v (codes "gopass") || has_gopass vs

  -- selectGPGPinentry, which auto mode leaves out.
  unfoldable pub select_gpg_pinentry : List Text → Flow Bool
  select_gpg_pinentry vaults =
      if opts.auto
      then give false
      else if not (has_gopass vaults)
      then give false
      else ask asks_gpg_pinentry (p.gpg_pinentry (read_existing_pinentry home.gpg_conf))

  unfoldable pub matching_agents : Text → List DetectedAgent → List DetectedAgent
  matching_agents query [] = []
  matching_agents query (a ∷ as_) =
      let rest = matching_agents query as_ in if agent_matches a.name query then a ∷ rest else rest

  unfoldable pub found_agents : List DetectedAgent → List DetectedAgent
  found_agents [] = []
  found_agents (a ∷ as_) = let rest = found_agents as_ in if a.detected then a ∷ rest else rest

  -- selectAgents
  unfoldable pub select_agents : Text → Flow (List DetectedAgent)
  select_agents home_dir =
      let agents = detect_agents machine.system home_dir in
      if opts.skip_agents
      then give []
      else if not (is_empty opts.agent_only)
      then give (matching_agents opts.agent_only agents)
      else if opts.auto
      then give (found_agents agents)
      else ask asks_agents (p.agent_selection agents)

  -- The question about sandbox permissions.
  unfoldable pub choose_sandbox : List DetectedAgent → Flow Bool
  choose_sandbox [] = give false
  choose_sandbox (a ∷ as_) = if opts.auto then give true else ask asks_sandbox p.sandbox

  unfoldable pub confirmed : Bool → Flow (Unit {0})
  confirmed true = give tt
  confirmed false = fail cancelled_by_user

  -- The summary.
  unfoldable pub confirm : InitResult → Flow (Unit {0})
  confirm r = if opts.auto then give tt else (ask asks_summary (p.summary r) >>= confirmed)

  unfoldable pub shell_installed : Text → Bool
  shell_installed file =
      elim (Shell.is_installed (machine.rc_readable file) (lookup file home.files)) [
        | ok b ↦ b
        | err e ↦ false
      ]

  -- detectShellHookConsent
  unfoldable pub shell_hook_consent : InitResult → Flow InitResult
  shell_hook_consent r =
      let shell = detect_shell machine.env in
      let rc = rc_file machine.user_home_dir machine.env shell in
      let r' : InitResult = record r { shell_hook_rc_file = rc; shell_hook_shell = shell } in
      elim rc [
        | none ↦ give r'
        | some file ↦
            if shell_installed file
            then give (record r' { shell_hook_already_present = true })
            else if opts.auto
            then give (record r' { shell_hook_install = true })
            else (ask asks_shell_hook (p.shell_hook file) >>= λ yes_.
                give (record r' { shell_hook_install = yes_ }))
      ]

  unfoldable pub claude_consent : Text → InitResult → Flow InitResult
  claude_consent home_dir r =
      if Hooks.is_installed (hook_cmd home_dir) (lookup (claude_settings home_dir) home.settings)
      then give (record r { claude_hook_already_present = true })
      else if opts.auto
      then give (record r { claude_hook_confirmed = true })
      else (ask asks_claude_hook (p.claude_hook (claude_settings home_dir)) >>= λ yes_.
          give (record r { claude_hook_confirmed = yes_ }))

  unfoldable pub has_claude : List DetectedAgent → Bool
  has_claude [] = false
  has_claude (a ∷ as_) = text_eq a.name claude_code || has_claude as_

  -- detectClaudeHookConsent: for the first Claude Code among the agents.
  unfoldable pub claude_hook_consent : Text → InitResult → Flow InitResult
  claude_hook_consent home_dir r =
      if has_claude r.selected_agents then claude_consent home_dir r else give r

  abbrev plan_of : Text → Bool → List Text → Bool → List DetectedAgent → Bool → InitResult
  plan_of config_path kept vaults gpg agents sandbox = record {
    config_path = config_path;
    selected_vaults = vaults;
    selected_agents = agents;
    sandbox_enabled = sandbox;
    gpg_pinentry_configured = gpg;
    config_preexisted = kept;
    shell_hook_install = false;
    shell_hook_already_present = false;
    shell_hook_rc_file = none;
    shell_hook_shell = Shell.unknown;
    claude_hook_confirmed = false;
    claude_hook_installed = false;
    claude_hook_already_present = false;
  }

  -- The summary and what is asked after it.
  unfoldable pub plan_consent : Text → InitResult → Flow InitResult
  plan_consent home_dir r =
      confirm r >>= λ _. shell_hook_consent r >>= λ r'. claude_hook_consent home_dir r'

  unfoldable pub plan_agents : Text → Text → Bool → List Text → Bool → Flow InitResult
  plan_agents home_dir config_path kept vaults gpg = select_agents home_dir >>= λ agents.
      choose_sandbox agents >>= λ sandbox.
      plan_consent home_dir (plan_of config_path kept vaults gpg agents sandbox)

  unfoldable pub plan_rest : Text → Text → Bool → Flow InitResult
  plan_rest home_dir config_path kept = select_vaults >>= λ vaults.
      select_gpg_pinentry vaults >>= λ gpg. plan_agents home_dir config_path kept vaults gpg

  -- RunInit up to applyInit.
  unfoldable pub plan_init : Text → Flow InitResult
  plan_init home_dir = choose_config_dir (join_path home_dir (codes ".config/locksmith")) >>= λ dir.
      check_existing (join_path dir (codes "config.yaml")) >>= λ kept.
      plan_rest home_dir (join_path dir (codes "config.yaml")) kept
