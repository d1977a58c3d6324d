-- ===== src/Initflow/Flow/Applying.antt =====
-- applyInit of internal/initflow/flow.go and what it calls: the part of the wizard that writes. Also
-- Install of hooks.go and InstallSandboxPermissions of sandbox.go.
use locksmith.Common.{
  Bool, false, not, ◌&&◌, ◌||◌, List, [], ◌∷◌, ◌++◌, map, Option, none, some, Result, ok, err,
  wrap_err, if◌then◌else◌,
}
use locksmith.Common.Text.{Text, codes, text_eq}
use locksmith.Common.Paths.{join_path}
use locksmith.Common.Assoc.{Map, lookup, insert}
use locksmith.Bundled
use locksmith.Bundled.Extracting
use locksmith.Config.{Config, Vault}
use locksmith.Initflow.Agents
use locksmith.Initflow.Agents.{DetectedAgent, Faults, Files}
use locksmith.Initflow.Gpg
use locksmith.Initflow.Hooks
use locksmith.Initflow.Json.{Members}
use locksmith.Initflow.Sandbox
use locksmith.Initflow.Shell
use locksmith.Initflow.Templates.{claude_hook}
use locksmith.Initflow.Flow.{
  InitResult, Prompter, Machine, Home, Error, creating_config_dir, opening_bundle, extracting,
  writing_config, installing_instructions, installing_sandbox, installing_policy,
  writing_hook_script, merging_hook, empty_bundle, bad_bundle, good_bundle, BundleFile,
}
use locksmith.Initflow.Flow.Planning.{claude_code, hook_cmd, claude_settings}

-- What a step leaves, and how it ends.
abbrev pub Done : Type 0
Done = Home × Result Error (Unit {0})

unfoldable pub next : Done → (Home → Done) → Done
next (home, err e) f = (home, err e)
next (home, ok _) f = f home

unfoldable pub keep_files : {E : Type 0} → (E → Error) → Home → Files × Result E (Unit {0}) → Done
keep_files wrap home (files, r) = (record home { files = files }, wrap_err wrap r)

-- A settings file after an installer; none of them takes the file away.
unfoldable pub put_settings : Text → Option Members → Map Members → Map Members
put_settings path none m = m
put_settings path (some file) m = insert path file m

unfoldable pub keep_settings :
    {E : Type 0} → (E → Error) → Text → Home → Option Members × Result E (Unit {0}) → Done
keep_settings wrap path home (file, r) =
    (record home { settings = put_settings path file home.settings }, wrap_err wrap r)

unfoldable pub keep_binaries :
    Home → Bundled.Files × List Bundled.Event × Result Bundled.Error (Unit {0}) → Done
keep_binaries home (binaries, events, r) =
    (record home { binaries = binaries }, wrap_err extracting r)

unfoldable pub plugin_names : List Text → List Text
plugin_names vaults = map (λ v. codes "locksmith-plugin-" ++ v) vaults

abbrev pub pinentry_path : Text → Text
pinentry_path home_dir = join_path home_dir (codes ".config/locksmith/bin/locksmith-pinentry")

abbrev pub plugins_dir : Text → Text
plugins_dir home_dir = join_path home_dir (codes ".config/locksmith/plugins")

unfoldable pub extract_options : Prompter → Bool → Text → List Text → Bundled.ExtractOptions
extract_options p auto home_dir vaults = record {
  names = codes "locksmith-pinentry" ∷ plugin_names vaults;
  plugins_dir = plugins_dir home_dir;
  pinentry_path = pinentry_path home_dir;
  prompter = if auto then none else some p.bundle_extract_prompt;
  force_overwrite = false;
}

-- ExtractBundled
unfoldable pub extract_bundled : BundleFile → Prompter → Bool → Text → List Text → Home → Done
extract_bundled empty_bundle p auto home_dir vaults home = (home, ok tt)
extract_bundled (bad_bundle e) p auto home_dir vaults home = (home, err (opening_bundle e))
extract_bundled (good_bundle world) p auto home_dir vaults home =
    keep_binaries home
      (Extracting.extract world (extract_options p auto home_dir vaults) home.binaries)

unfoldable pub vaults_of : List Text → Map Vault → Map Vault
vaults_of [] m = m
vaults_of (vt ∷ vts) m =
    vaults_of vts (insert vt (record { vault_type = vt; store = []; account = []; service = [] }) m)

-- The configuration that is written.
unfoldable pub initial_config : List Text → Config
initial_config vaults = record {
  defaults = record {
    session_ttl = codes "3h";
    socket_path = codes "~/.config/locksmith/locksmith.sock";
  };
  logging = record { level = codes "info"; format = codes "text"; file = [] };
  agent = record { pass_session_to_subagents = none };
  vaults = vaults_of vaults [];
  keys = [];
  servers = [];
}

-- applyGPGPinentryConfig; what goes wrong is only printed.
unfoldable pub apply_gpg_pinentry_config : Faults → Text → Home → Home
apply_gpg_pinentry_config faults home_dir home =
    elim (lookup (pinentry_path home_dir) home.binaries) [
      | none ↦ home
      | some _ ↦
          let dir = join_path home_dir (codes ".gnupg") in
          let conf = join_path dir (codes "gpg-agent.conf") in
          record home {
            gpg_conf =
                (Gpg.apply_gpg_pinentry (pinentry_path home_dir) (not (faults.no_mkdir dir))
                  (not (faults.no_write conf)) home.gpg_conf).0;
          }
    ]

-- writeConfigFile
unfoldable pub write_config_file : Faults → InitResult → Text → Home → Done
write_config_file faults r home_dir home =
    if r.config_preexisted
    then (home, ok tt)
    else if faults.no_write r.config_path
    then (home, err writing_config)
    else (let home' : Home = record home {
      configs = insert r.config_path (initial_config r.selected_vaults) home.configs;
    } in
        (
          if r.gpg_pinentry_configured
              then apply_gpg_pinentry_config faults home_dir home'
              else home',
          ok tt,
        ))

-- writeScript
unfoldable pub write_script : Faults → Text → Files → Files × Result Agents.Error (Unit {0})
write_script faults home_dir files =
    Agents.and_then (Agents.make_dir faults (join_path home_dir (codes ".config/locksmith")) files)
      (Agents.write_file faults (hook_cmd home_dir) claude_hook)

unfoldable pub merge_hook : Faults → Text → Home → Done
merge_hook faults home_dir home =
    let path = claude_settings home_dir in
    keep_settings merging_hook path home (
      Hooks.merge_settings (hook_cmd home_dir)
        (not (faults.no_mkdir (join_path home_dir (codes ".claude")))) (not (faults.no_write path))
        (lookup path home.settings))

-- ClaudeHookInstaller.Install
unfoldable pub install_hook : Faults → Text → Home → Done
install_hook faults home_dir home =
    next (keep_files writing_hook_script home (write_script faults home_dir home.files))
      (merge_hook faults home_dir)

-- applyClaudeHook
unfoldable pub apply_claude_hook : Faults → InitResult → Text → Home → Done
apply_claude_hook faults r home_dir home =
    if r.claude_hook_already_present
    then (home, ok tt)
    else if r.claude_hook_confirmed
    then install_hook faults home_dir home
    else (home, ok tt)

-- ClaudeHookInstalled, which applyClaudeHook sets where it has installed the hook, after the loop over
-- these agents has ended well.
unfoldable pub installs_claude_hook : InitResult → List DetectedAgent → Bool
installs_claude_hook r [] = false
installs_claude_hook r (a ∷ as_) =
    (text_eq a.name claude_code && (not r.claude_hook_already_present && r.claude_hook_confirmed))
    || installs_claude_hook r as_

-- InstallSandboxPermissions
unfoldable pub install_sandbox_permissions : Faults → DetectedAgent → Home → Done
install_sandbox_permissions faults a home =
    if text_eq a.name claude_code
    then (let path = join_path a.config_dir (codes "settings.json") in
        keep_settings installing_sandbox path home
          (Sandbox.install_claude_sandbox (not (faults.no_write path)) (lookup path home.settings)))
    else if text_eq a.name (codes "Codex")
    then keep_files installing_policy home (Agents.install_codex_sandbox faults a home.files)
    else (home, ok tt)

unfoldable pub apply_sandbox : Faults → InitResult → DetectedAgent → Home → Done
apply_sandbox faults r a home =
    if r.sandbox_enabled then install_sandbox_permissions faults a home else (home, ok tt)

unfoldable pub apply_hook : Faults → InitResult → Text → DetectedAgent → Home → Done
apply_hook faults r home_dir a home =
    if text_eq a.name claude_code then apply_claude_hook faults r home_dir home else (home, ok tt)

-- The body of the loop over the agents.
unfoldable pub apply_agent : Faults → InitResult → Text → DetectedAgent → Home → Done
apply_agent faults r home_dir a home =
    next
      (keep_files installing_instructions home (Agents.install_agent faults home_dir a home.files))
      (λ home1. next (apply_sandbox faults r a home1) (apply_hook faults r home_dir a))

unfoldable pub apply_agents : Faults → InitResult → Text → List DetectedAgent → Home → Done
apply_agents faults r home_dir [] home = (home, ok tt)
apply_agents faults r home_dir (a ∷ as_) home =
    next (apply_agent faults r home_dir a home) (apply_agents faults r home_dir as_)

unfoldable pub put_file : Text → Option Text → Files → Files
put_file path none files = files
put_file path (some content) files = insert path content files

unfoldable pub append_hook : Faults → InitResult → Option Text → Home → Home
append_hook faults r none home = home
append_hook faults r (some file) home = record home {
  files =
      put_file file
        (Shell.install (not (faults.no_open file)) (not (faults.no_write file)) r.shell_hook_shell
          (lookup file home.files)).0
        home.files;
}

-- applyShellHook; what goes wrong is only printed.
unfoldable pub apply_shell_hook : Faults → InitResult → Home → Home
apply_shell_hook faults r home =
    if r.shell_hook_already_present
    then home
    else if r.shell_hook_install
    then append_hook faults r r.shell_hook_rc_file home
    else home

unfoldable pub finish_init : Faults → InitResult → Done → Done
finish_init faults r (home, err e) = (home, err e)
finish_init faults r (home, ok _) = (apply_shell_hook faults r home, ok tt)

-- applyInit. Made directories are not recorded; whether that of the configuration can be made is
-- recorded under the configuration's own path.
unfoldable pub apply_init : Machine → InitResult → Text → Prompter → Bool → Home → Done
apply_init machine r home_dir p auto home =
    if machine.faults.no_mkdir r.config_path
    then (home, err creating_config_dir)
    else finish_init machine.faults r (
        next (extract_bundled machine.bundle p auto home_dir r.selected_vaults home) (λ home1.
          next (write_config_file machine.faults r home_dir home1)
            (apply_agents machine.faults r home_dir r.selected_agents)))
