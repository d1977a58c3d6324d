-- ===== src/Tests/Wizard.antt =====
-- The wizard of internal/initflow and the shell hook at concrete inputs.
use locksmith.Common.{
  ◌≡◌, ◌≢◌, refl, true, false, List, [], ◌∷◌, ◌++◌, Option, none, some, Result, ok, err,
}
use locksmith.Common.Text.{
  Text, codes, text_eq, is_empty, has_prefix, contains, contains_of_prefix, to_lower, to_lower_byte,
}
use locksmith.Common.Paths
use locksmith.Common.Split
use locksmith.Common.Words
use locksmith.Common.Assoc
use locksmith.Config.{Config}
use locksmith.Bundled
use locksmith.Initflow.Agents
use locksmith.Initflow.Agents.{System, Faults, Files, append_if_absent, install_agent, integration}
use locksmith.Initflow.Shell
use locksmith.Initflow.Shell.{zsh, install, is_installed, content_or_empty, is_installed-install}
use locksmith.Initflow.Flow.{
  Question, InitOptions, InitResult, Prompter, Machine, Home, Error, action_continue, empty_bundle,
  continue_with,
}
use locksmith.Initflow.Flow.Planning
use locksmith.Initflow.Flow.Planning.{select_agents}
use locksmith.Initflow.Flow.Applying
use locksmith.Initflow.Flow.Running
use locksmith.Initflow.Flow.Running.{run_init}
use locksmith.Initflow.Flow.Consent.{run_init-declined}
use locksmith.Initflow.Flow.Unattended.{run_init-auto}
use locksmith.Initflow.Flow.Keeping.{IsKept, run_init-IsKept}
use locksmith.Initflow.Flow.Undetected.{
  IsInstalled, undetected_claude, only_claude, install-undetected,
}

abbrev no_faults : Faults
no_faults = record {
  no_mkdir = λ path. false;
  no_read = λ path. false;
  no_open = λ path. false;
  no_write = λ path. false;
}

abbrev notes : Files
notes = (codes "NOTES.md", codes "mine") ∷ []

abbrev section : Text
section = codes "## Locksmith Integration and more"

section-integration : contains section integration ≡ true
section-integration = contains_of_prefix section integration (unfold has_prefix in refl)

appended : (append_if_absent no_faults (codes "NOTES.md") section integration notes).1 ≡ ok tt
unfolding append_if_absent Agents.read_existing Agents.append_text contains text_eq has_prefix
    Assoc.lookup Assoc.insert
appended = refl

known : zsh ≢ Shell.unknown
known h = cc

is_installed-install_example :
    (is_installed true (install true true zsh (some (codes "alias l=ls"))).0 ≡ ok true)
    × ((rest : Text) × ((install true true zsh (some (codes "alias l=ls"))).0
          ≡ some (content_or_empty (some (codes "alias l=ls")) ++ rest)))
unfolding install
is_installed-install_example =
    is_installed-install zsh true true (some (codes "alias l=ls")) known refl

abbrev machine : Machine
machine = record {
  user_home_dir = some (codes "/h");
  system = record { stats = λ path. false; in_path = λ name. false; goos = codes "linux" };
  env = [];
  config_is_valid = λ path. true;
  rc_readable = λ path. true;
  faults = no_faults;
  bundle = empty_bundle;
}

abbrev old_config : Config
old_config = Applying.initial_config (codes "keychain" ∷ [])

abbrev home : Home
home = record {
  files = notes;
  settings = [];
  configs = (codes "/h/.config/locksmith/config.yaml", old_config) ∷ [];
  binaries = (codes "/h/.config/locksmith/bin/locksmith-pinentry", codes "v1") ∷ [];
  gpg_conf = some (codes "default-cache-ttl 60");
}

-- Keeps the configuration, wants gopass and its pinentry, and agrees to the summary or does not.
abbrev prompter : Result Text locksmith.Common.Bool → Prompter
prompter agrees = record {
  existing_config = λ path valid. ok action_continue;
  config_location = λ dir. ok dir;
  vault_selection = λ vaults. ok (codes "gopass" ∷ []);
  agent_selection = λ agents. ok [];
  sandbox = ok true;
  summary = λ r. agrees;
  gpg_pinentry = λ existing. ok true;
  shell_hook = λ file. ok true;
  claude_hook = λ file. ok true;
  bundle_extract_prompt = λ name existing new. ok Bundled.keep;
}

abbrev asking : InitOptions
asking = record { auto = false; agent_only = []; skip_agents = false }

run_init-declined_example :
    ((run_init machine asking (prompter (ok false)) home).home ≡ home)
    × ((e : Error) × ((run_init machine asking (prompter (ok false)) home).result ≡ err e))
run_init-declined_example =
    run_init-declined machine home asking (prompter (ok false)) refl (λ r h. cc)

run_init-auto_example :
    (run_init machine (record asking { auto = true }) (prompter (ok false)) home
      ≡ run_init machine (record asking { auto = true }) (prompter (ok true)) home)
    × ((run_init machine (record asking { auto = true }) (prompter (ok false)) home).asked ≡ [])
run_init-auto_example =
    run_init-auto machine home (record asking { auto = true }) (prompter (ok false))
      (prompter (ok true)) refl

abbrev wants_pinentry : InitResult
wants_pinentry = record {
  config_path = codes "/h/.config/locksmith/config.yaml";
  selected_vaults = codes "gopass" ∷ [];
  selected_agents = [];
  sandbox_enabled = false;
  gpg_pinentry_configured = true;
  config_preexisted = true;
  shell_hook_install = false;
  shell_hook_already_present = false;
  shell_hook_rc_file = none;
  shell_hook_shell = Shell.unknown;
  claude_hook_confirmed = false;
  claude_hook_installed = false;
  claude_hook_already_present = false;
}

keeps : (run_init machine asking (prompter (ok true)) home).result ≡ ok wants_pinentry
unfolding run_init Running.run_plan Running.applied Planning.plan_init Planning.plan_rest
    Planning.plan_agents Planning.plan_consent continue_with Planning.choose_config_dir
    Planning.check_existing Planning.preexisted Planning.select_vaults Planning.has_gopass
    Planning.select_gpg_pinentry Planning.select_agents Planning.choose_sandbox Planning.confirm
    Planning.confirmed Planning.shell_hook_consent Planning.claude_hook_consent Planning.has_claude
    Shell.detect_shell Shell.parse_shell_path Shell.base Shell.getenv Shell.or_else Shell.rc_file
    Shell.rc_file_in Shell.last_of to_lower to_lower_byte Words.trim_right Applying.apply_init
    Applying.finish_init Applying.next Applying.extract_bundled Applying.write_config_file
    Applying.apply_agents Applying.apply_shell_hook Paths.join_path Paths.clean Paths.clean_loop
    Paths.clean_step Split.split_on Split.join_with text_eq is_empty has_prefix Assoc.lookup
    Assoc.insert Applying.installs_claude_hook
keeps = refl

run_init-IsKept_example : IsKept home (run_init machine asking (prompter (ok true)) home).home
run_init-IsKept_example =
    run_init-IsKept machine asking (prompter (ok true)) home wants_pinentry keeps refl

abbrev no_log : List Question
no_log = []

installed : (install_agent no_faults (codes "/h") undetected_claude notes).1 ≡ ok tt
unfolding install_agent Agents.install_claude_code Agents.and_then Agents.make_dir Agents.write_file
    append_if_absent Agents.read_existing Agents.append_text contains Paths.join_path Paths.clean
    Paths.clean_loop Paths.clean_step Split.split_on Split.join_with text_eq is_empty has_prefix
    Assoc.lookup Assoc.insert
installed = refl

install-undetected_example :
    (select_agents machine home (only_claude true) (prompter (ok true)) (codes "/h") no_log
      ≡ (no_log, ok (undetected_claude ∷ [])))
    × IsInstalled
        (codes "CLAUDE.md")
        (codes "skills/locksmith.md")
        notes
        (install_agent no_faults (codes "/h") undetected_claude notes).0
install-undetected_example =
    install-undetected machine home true (prompter (ok true)) (codes "/h") no_log no_faults notes
      (record { no_dir = refl; no_binary = refl }) refl installed
