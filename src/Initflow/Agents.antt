-- ===== src/Initflow/Agents.antt =====
-- internal/initflow/agents.go, detect.go and installCodexSandbox of sandbox.go: which agents and vaults
-- there are, and the instructions that are written for an agent.
--
-- Files are a map from paths to contents; what the operating system answers and refuses is an argument.
-- A file that can be opened for writing is written whole or not at all.
pub mod Appending
use locksmith.Common.{
  ℕ, ◌-◌, Bool, true, false, not, ◌&&◌, ◌||◌, List, [], ◌∷◌, ◌++◌, map, Option, none, some, Result,
  ok, err, if◌then◌else◌, length, take, drop, ltb,
}
use locksmith.Common.Text.{Text, codes, text_eq, is_empty, contains, has_prefix}
use locksmith.Common.Paths.{join_path}
use locksmith.Common.Assoc.{Map, lookup, insert}
use locksmith.Initflow.Sandbox.{locksmith_allow_list}
use locksmith.Initflow.Templates.{claude_skill, claude_md, codex_agents, agent_instructions}

pub record DetectedAgent : Type 0 where
  pub name : Text
  pub detected : Bool
  pub config_dir : Text
  pub home_path : Text
  pub binary_name : Text

pub record DetectedVault : Type 0 where
  pub vault_type : Text
  pub detected : Bool
  pub available : Bool
  pub implemented : Bool
  pub platform_note : Text

-- What the system has: os.Stat, exec.LookPath and runtime.GOOS.
pub record System : Type 0 where
  pub stats : Text → Bool
  pub in_path : Text → Bool
  pub goos : Text

abbrev agent : Text → Text → Text → DetectedAgent
agent name home_path binary_name = record {
  name = name;
  detected = false;
  config_dir = [];
  home_path = home_path;
  binary_name = binary_name;
}

unfoldable pub known_agents : List DetectedAgent
known_agents =
    agent (codes "Claude Code") (codes ".claude") (codes "claude")
    ∷ agent (codes "Codex") (codes ".codex") (codes "codex")
    ∷ agent (codes "OpenCode") (join_path (codes ".config") (codes "opencode")) (codes "opencode")
    ∷ []

-- The loop's body in DetectAgents.
unfoldable pub detect_agent : System → Text → DetectedAgent → DetectedAgent
detect_agent sys home_dir a =
    let dir_path = join_path home_dir a.home_path in
    if sys.stats dir_path
    then record a { detected = true; config_dir = dir_path }
    else if sys.in_path a.binary_name
    then record a { detected = true; config_dir = dir_path }
    else a

-- DetectAgents
unfoldable pub detect_agents : System → Text → List DetectedAgent
detect_agents sys home_dir = map (detect_agent sys home_dir) known_agents

abbrev vault : Text → Bool → Bool → Text → Bool → DetectedVault
vault vault_type available implemented platform_note detected = record {
  vault_type = vault_type;
  detected = detected;
  available = available;
  implemented = implemented;
  platform_note = platform_note;
}

-- DetectVaults
unfoldable pub detect_vaults : System → List DetectedVault
detect_vaults sys =
    let darwin = text_eq sys.goos (codes "darwin") in
    let linux = text_eq sys.goos (codes "linux") in
    vault (codes "keychain") darwin true [] darwin
    ∷ vault (codes "gopass") true true [] (sys.in_path (codes "gopass"))
    ∷ vault (codes "1password") true false [] (sys.in_path (codes "op"))
    ∷ vault (codes "gnome-keyring") linux false (codes "Linux only")
        (sys.in_path (codes "secret-tool"))
    ∷ []

abbrev pub Files : Type 0
Files = Map Text

-- What the operating system refuses, by path.
pub record Faults : Type 0 where
  pub no_mkdir : Text → Bool
  pub no_read : Text → Bool
  pub no_open : Text → Bool
  pub no_write : Text → Bool

pub data Error : Type 0 where
  mkdir : Text → Error
  reading : Text → Error
  opening : Text → Error
  writing : Text → Error

-- os.ReadFile, with no content for a missing file.
unfoldable pub read_existing : Faults → Text → Files → Result Error Text
read_existing faults path files = elim (lookup path files) [
  | none ↦ ok []
  | some content ↦ if faults.no_read path then err (reading path) else ok content
]

unfoldable pub append_text : Faults → Text → Text → Text → Files → Files × Result Error (Unit {0})
append_text faults path existing content files =
    if faults.no_open path
    then (files, err (opening path))
    else if faults.no_write path
    then (insert path existing files, err (writing path))
    else (
      insert path (existing ++ ((if is_empty existing then [] else 10 ∷ 10 ∷ []) ++ content)) files,
      ok tt,
    )

-- appendIfAbsent
unfoldable pub append_if_absent :
    Faults → Text → Text → Text → Files → Files × Result Error (Unit {0})
append_if_absent faults path content marker files = elim (read_existing faults path files) [
  | err e ↦ (files, err e)
  | ok existing ↦
      if contains existing marker
      then (files, ok tt)
      else append_text faults path existing content files
]

-- os.WriteFile
unfoldable pub write_file : Faults → Text → Text → Files → Files × Result Error (Unit {0})
write_file faults path content files =
    if faults.no_open path || faults.no_write path
    then (files, err (writing path))
    else (insert path content files, ok tt)

-- A step after one that has succeeded.
unfoldable pub and_then :
    Files × Result Error (Unit {0})
    → (Files → Files × Result Error (Unit {0}))
    → Files × Result Error (Unit {0})
and_then (files, err e) next = (files, err e)
and_then (files, ok _) next = next files

unfoldable pub make_dir : Faults → Text → Files → Files × Result Error (Unit {0})
make_dir faults path files =
    if faults.no_mkdir path then (files, err (mkdir path)) else (files, ok tt)

abbrev pub integration : Text
integration = codes "## Locksmith Integration"

unfoldable pub install_claude_code :
    Faults → DetectedAgent → Files → Files × Result Error (Unit {0})
install_claude_code faults a files =
    let skill_dir = join_path a.config_dir (codes "skills") in
    and_then (make_dir faults skill_dir files) (λ files1.
      and_then (write_file faults (join_path skill_dir (codes "locksmith.md")) claude_skill files1)
        (λ files2.
          append_if_absent faults (join_path a.config_dir (codes "CLAUDE.md")) claude_md integration
            files2))

unfoldable pub install_codex : Faults → DetectedAgent → Files → Files × Result Error (Unit {0})
install_codex faults a files =
    and_then (make_dir faults a.config_dir files) (
      append_if_absent faults (join_path a.config_dir (codes "AGENTS.md")) codex_agents integration)

unfoldable pub install_open_code : Faults → DetectedAgent → Files → Files × Result Error (Unit {0})
install_open_code faults a files = and_then (make_dir faults a.config_dir files) (
    append_if_absent faults (join_path a.config_dir (codes "instructions.md")) agent_instructions
      (codes "# Locksmith"))

unfoldable pub install_generic : Faults → Text → Files → Files × Result Error (Unit {0})
install_generic faults home_dir files =
    let dir = join_path home_dir (codes ".config/locksmith") in
    and_then (make_dir faults dir files)
      (write_file faults (join_path dir (codes "agent-instructions.md")) agent_instructions)

-- Install
unfoldable pub install_agent :
    Faults → Text → DetectedAgent → Files → Files × Result Error (Unit {0})
install_agent faults home_dir a files =
    if text_eq a.name (codes "Claude Code")
    then install_claude_code faults a files
    else if text_eq a.name (codes "Codex")
    then install_codex faults a files
    else if text_eq a.name (codes "OpenCode")
    then install_open_code faults a files
    else install_generic faults home_dir files

-- The command of a permission.
unfoldable pub strip_bash : Text → Text
strip_bash perm =
    if ltb 5 (length perm) && has_prefix perm (codes "Bash(")
    then take (length perm - 6) (drop 5 perm)
    else perm

-- One line per command; %q puts it in quotes, with nothing in it to escape.
unfoldable pub policy_lines : List Text → Text
policy_lines [] = []
policy_lines (perm ∷ perms) =
    codes "  - \"" ++ (strip_bash perm ++ (codes "\"\n" ++ policy_lines perms))

abbrev pub policy_marker : Text
policy_marker = codes "# Locksmith permissions"

-- installCodexSandbox
unfoldable pub install_codex_sandbox :
    Faults → DetectedAgent → Files → Files × Result Error (Unit {0})
install_codex_sandbox faults a files =
    append_if_absent faults (join_path a.config_dir (codes "policy.yaml"))
      (policy_marker ++ (codes "\nallow:\n" ++ policy_lines locksmith_allow_list)) policy_marker
      files
