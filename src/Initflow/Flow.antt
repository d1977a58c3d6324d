-- ===== src/Initflow/Flow.antt =====
-- internal/initflow/flow.go: the wizard of `locksmith init`. It asks first and writes then.
--
-- The machine answers what the wizard looks up, and says which operations fail. The user's home is the
-- files that the wizard may write. The prompter's answers are a record of functions, and the questions
-- are logged, newest first.
pub mod Planning
pub mod Applying
pub mod Running
pub mod Consent
pub mod Unattended
pub mod Undetected
pub mod Steps
pub mod Stable
pub mod Hooking
pub mod Permitting
pub mod Keeping
use locksmith.Common.{
  Bool, true, false, List, [], ◌∷◌, Option, none, some, Result, ok, err, wrap_err, if◌then◌else◌,
}
use locksmith.Common.Text.{Text}
use locksmith.Common.Assoc.{Map}
use locksmith.Bundled
use locksmith.Bundled.{ConflictResolution}
use locksmith.Config.{Config}
use locksmith.Initflow.Agents
use locksmith.Initflow.Agents.{DetectedAgent, DetectedVault, System, Files, Faults}
use locksmith.Initflow.Gpg
use locksmith.Initflow.Hooks
use locksmith.Initflow.Json.{Members}
use locksmith.Initflow.Sandbox
use locksmith.Initflow.Shell.{Shell}

pub data ExistingConfigAction : Type 0 where
  action_continue action_overwrite action_exit : ExistingConfigAction

pub record InitOptions : Type 0 where
  pub auto : Bool
  pub agent_only : Text
  pub skip_agents : Bool

pub record InitResult : Type 0 where
  pub config_path : Text
  pub selected_vaults : List Text
  pub selected_agents : List DetectedAgent
  pub sandbox_enabled : Bool
  pub gpg_pinentry_configured : Bool
  pub config_preexisted : Bool
  pub shell_hook_install : Bool
  pub shell_hook_already_present : Bool
  pub shell_hook_rc_file : Option Text
  pub shell_hook_shell : Shell
  pub claude_hook_confirmed : Bool
  pub claude_hook_installed : Bool
  pub claude_hook_already_present : Bool

-- Prompter: its answers.
pub record Prompter : Type 0 where
  pub existing_config : Text → Bool → Result Text ExistingConfigAction
  pub config_location : Text → Result Text Text
  pub vault_selection : List DetectedVault → Result Text (List Text)
  pub agent_selection : List DetectedAgent → Result Text (List DetectedAgent)
  pub sandbox : Result Text Bool
  pub summary : InitResult → Result Text Bool
  pub gpg_pinentry : Text → Result Text Bool
  pub shell_hook : Text → Result Text Bool
  pub claude_hook : Text → Result Text Bool
  pub bundle_extract_prompt : Text → Text → Text → Result Text ConflictResolution

pub data Question : Type 0 where
  asks_existing_config asks_config_location asks_vaults asks_agents asks_sandbox asks_summary :
      Question
  asks_gpg_pinentry asks_shell_hook asks_claude_hook : Question

-- What bundled.OpenBundle gives.
pub data BundleFile : Type 0 where
  empty_bundle : BundleFile
  bad_bundle : Text → BundleFile
  good_bundle : Bundled.World → BundleFile

pub record Machine : Type 0 where
  pub user_home_dir : Option Text
  pub system : System
  pub env : Map Text
  -- config.Load of a configuration that is there.
  pub config_is_valid : Text → Bool
  pub rc_readable : Text → Bool
  pub faults : Faults
  pub bundle : BundleFile

-- What is on disk: texts, decoded settings of agents, configurations, bundled binaries, and
-- gpg-agent.conf.
pub record Home : Type 0 where
  pub files : Files
  pub settings : Map Members
  pub configs : Map Config
  pub binaries : Bundled.Files
  pub gpg_conf : Option Text

pub data Error : Type 0 where
  no_home_dir : Error
  prompting : Question → Text → Error
  cancelled_by_user : Error
  creating_config_dir : Error
  opening_bundle : Text → Error
  extracting : Bundled.Error → Error
  writing_config : Error
  installing_instructions : Agents.Error → Error
  installing_sandbox : Sandbox.Error → Error
  installing_policy : Agents.Error → Error
  writing_hook_script : Agents.Error → Error
  merging_hook : Hooks.Error → Error

-- A step of the wizard: the log of questions and the outcome.
abbrev pub Flow : Type 0 → Type 0
Flow A = List Question → List Question × Result Error A

unfoldable pub continue_with :
    {A B : Type 0} → List Question × Result Error A → (A → Flow B) → List Question × Result Error B
continue_with (log, err e) f = (log, err e)
continue_with (log, ok a) f = f a log

infixl 5 ◌>>=◌
abbrev pub ◌>>=◌ : {A B : Type 0} → Flow A → (A → Flow B) → Flow B
◌>>=◌ m f log = continue_with (m log) f

abbrev pub give : {A : Type 0} → A → Flow A
give a log = (log, ok a)

abbrev pub fail : {A : Type 0} → Error → Flow A
fail e log = (log, err e)

abbrev pub ask : {A : Type 0} → Question → Result Text A → Flow A
ask q answer log = (q ∷ log, wrap_err (prompting q) answer)
