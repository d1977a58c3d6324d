-- ===== src/Tests/Agents.antt =====
-- A run of the wizard of internal/initflow that sets Claude Code up.
use locksmith.Common.{◌≡◌, arith, refl, true, false, ◌||◌, [], ◌∷◌, none, some, ok}
use locksmith.Common.Text
use locksmith.Common.Text.{Text, codes}
use locksmith.Common.Paths
use locksmith.Common.Split
use locksmith.Common.Words
use locksmith.Common.Assoc
use locksmith.Bundled
use locksmith.Initflow.Agents
use locksmith.Initflow.Hooks
use locksmith.Initflow.Json
use locksmith.Initflow.Json.{string, array, object, item, no_items, Members, member, no_members}
use locksmith.Initflow.Json.{Members, no_members}
use locksmith.Initflow.Sandbox
use locksmith.Initflow.Shell
use locksmith.Initflow.Flow
use locksmith.Initflow.Flow.{
  InitOptions, InitResult, Prompter, Machine, Home, Error, action_continue, empty_bundle,
}
use locksmith.Initflow.Flow.Planning
use locksmith.Initflow.Flow.Applying
use locksmith.Initflow.Flow.Running
use locksmith.Initflow.Flow.Running.{run_init}
use locksmith.Initflow.Flow.Stable
use locksmith.Initflow.Flow.Hooking.{has_hook, run_init-hooked}
use locksmith.Initflow.Flow.Permitting.{IsPermitted, is_claude_at, run_init-IsPermitted}

abbrev machine : Machine
machine = record {
  user_home_dir = some (codes "/h");
  system = record { stats = λ path. false; in_path = λ name. false; goos = codes "linux" };
  env = [];
  config_is_valid = λ path. true;
  rc_readable = λ path. true;
  faults = record {
    no_mkdir = λ path. false;
    no_read = λ path. false;
    no_open = λ path. false;
    no_write = λ path. false;
  };
  bundle = empty_bundle;
}

-- A theme, and one permission of the user's.
abbrev settings : Members
settings = member (codes "theme") (string (codes "dark")) (
    member (codes "permissions")
      (object
        (member (codes "allow") (array (item (string (codes "Bash(ls)")) no_items)) no_members))
      no_members)

abbrev home : Home
home = record { files = []; settings = []; configs = []; binaries = []; gpg_conf = none }

abbrev claude : Agents.DetectedAgent
claude = record {
  name = codes "Claude Code";
  config_dir = codes "/h/.claude";
  home_path = codes ".claude";
  binary_name = codes "claude";
  detected = true;
}

-- Picks Claude Code and agrees to everything.
abbrev prompter : Prompter
prompter = record {
  existing_config = λ path valid. ok action_continue;
  config_location = λ dir. ok dir;
  vault_selection = λ vaults. ok [];
  agent_selection = λ agents. ok (claude ∷ []);
  sandbox = ok true;
  summary = λ r. ok true;
  gpg_pinentry = λ existing. ok true;
  shell_hook = λ file. ok true;
  claude_hook = λ file. ok true;
  bundle_extract_prompt = λ name existing new. ok Bundled.keep;
}

abbrev asking : InitOptions
asking = record { auto = false; agent_only = []; skip_agents = false }

abbrev claude_set_up : InitResult
claude_set_up = record {
  config_path = codes "/h/.config/locksmith/config.yaml";
  selected_vaults = [];
  selected_agents = claude ∷ [];
  sandbox_enabled = true;
  gpg_pinentry_configured = false;
  config_preexisted = false;
  shell_hook_install = false;
  shell_hook_already_present = false;
  shell_hook_rc_file = none;
  shell_hook_shell = Shell.unknown;
  claude_hook_confirmed = true;
  claude_hook_installed = true;
  claude_hook_already_present = false;
}

succeeds : (run_init machine asking prompter home).result ≡ ok claude_set_up
unfolding run_init Running.run_plan Running.applied Planning.plan_init Planning.plan_rest
    Planning.plan_agents Planning.plan_consent Flow.continue_with Planning.choose_config_dir
    Planning.check_existing Planning.preexisted Planning.select_vaults Planning.has_gopass
    Planning.select_gpg_pinentry Planning.select_agents Planning.choose_sandbox Planning.confirm
    Planning.confirmed Planning.shell_hook_consent Planning.claude_hook_consent Planning.has_claude
    Planning.claude_consent Shell.detect_shell Shell.parse_shell_path Shell.base Shell.getenv
    Shell.or_else Shell.rc_file Shell.rc_file_in Shell.last_of Text.to_lower Text.to_lower_byte
    Words.trim_right Applying.apply_init Applying.finish_init Applying.next Applying.extract_bundled
    Applying.write_config_file Applying.apply_agents Applying.apply_shell_hook Paths.join_path
    Paths.clean Paths.clean_loop Paths.clean_step Split.split_on Split.join_with Text.text_eq
    Text.is_empty Text.has_prefix Assoc.lookup Assoc.insert Applying.installs_claude_hook
    Applying.apply_agent Applying.keep_files Applying.apply_sandbox
    Applying.install_sandbox_permissions Applying.keep_settings Applying.put_settings
    Applying.apply_hook Applying.apply_claude_hook Applying.install_hook Applying.write_script
    Applying.merge_hook Hooks.merge_settings Hooks.settings_or_new Hooks.find_hook_cmd
    Sandbox.install_claude_sandbox Agents.install_agent Agents.install_claude_code Agents.and_then
    Agents.make_dir Agents.write_file Agents.append_if_absent Agents.read_existing
    Agents.append_text Text.contains Hooks.is_installed Hooks.find_entry Hooks.entries_of
    Json.items_or_nil Json.get_member Json.object_or_new Sandbox.allow_all Json.set_member
succeeds = refl

installed_now : (has_hook (codes "/h") home || claude_set_up.claude_hook_installed) ≡ true
installed_now = ground arith

run_init-hooked_example : has_hook (codes "/h") (run_init machine asking prompter home).home ≡ true
run_init-hooked_example =
    run_init-hooked machine asking prompter home (codes "/h") claude_set_up refl succeeds
      installed_now

selected :
    Stable.any_agent (is_claude_at (codes "/h/.claude/settings.json")) claude_set_up.selected_agents
    ≡ true
unfolding Stable.any_agent is_claude_at Text.text_eq Paths.join_path Paths.clean Paths.clean_loop
    Paths.clean_step Split.split_on Split.join_with Text.has_prefix Text.is_empty
selected = refl

run_init-IsPermitted_example :
    IsPermitted (codes "/h/.claude/settings.json") (run_init machine asking prompter home).home
run_init-IsPermitted_example =
    run_init-IsPermitted machine asking prompter home claude_set_up
      (codes "/h/.claude/settings.json") succeeds refl selected
