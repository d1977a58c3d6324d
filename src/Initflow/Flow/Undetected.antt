-- ===== src/Initflow/Flow/Undetected.antt =====
-- `locksmith init --agent claude` where Claude Code is not detected: selectAgents of
-- internal/initflow/flow.go and installClaudeCode of agents.go.
use locksmith.Common.{
  ◌≡◌, ◌≢◌, ◌∙◌, arith, ◌++◌, ◌||◌, some, if◌then◌else◌, refl, sym, ap, subst, Bool, true, false,
  List, [], ◌∷◌, inl, inr, Result, ok, err, Bool-cases,
}
use locksmith.Common.Text.{
  Text, codes, text_eq, text_eq_iff, is_empty, to_lower, to_lower_byte, contains,
  contains_of_prefix, has_prefix,
}
use locksmith.Common.Assoc.{lookup, insert, lookup-insert, lookup-insert_self}
use locksmith.Common.Paths.{join_path, clean, clean_loop, clean_step}
use locksmith.Common.Split.{split_on, join_with}
use locksmith.Common.Scan.{unlines}
use locksmith.Initflow.Templates.{claude_md, claude_skill}
use locksmith.Initflow.Agents.{
  DetectedAgent, System, Files, Faults, Error, detect_agents, detect_agent, known_agents,
  install_agent, install_claude_code, and_then, make_dir, write_file, append_if_absent, integration,
}
use locksmith.Initflow.Agents.Appending.{
  text_at, append_if_absent_text, append_if_absent-IsAppended,
}
use locksmith.Initflow.Flow.{InitOptions, Prompter, Machine, Home, Question}
use locksmith.Initflow.Flow.Planning.{select_agents, agent_matches, matching_agents}

and_then-ok :
    (r : Files × Result Error (Unit {0})) (f : Files → Files × Result Error (Unit {0}))
    → (and_then r f).1 ≡ ok tt
    → and_then r f ≡ f r.0
unfolding and_then
and_then-ok (files, err e) f h = absurd (cc)
and_then-ok (files, ok _) f h = refl

and_then-first :
    (r : Files × Result Error (Unit {0})) (f : Files → Files × Result Error (Unit {0}))
    → (and_then r f).1 ≡ ok tt
    → r.1 ≡ ok tt
unfolding and_then
and_then-first (files, err e) f h = absurd (cc)
and_then-first (files, ok _) f h = refl

claude_md-integration : contains claude_md integration ≡ true
unfolding claude_md unlines has_prefix
claude_md-integration = contains_of_prefix claude_md integration refl

-- The instructions behind what CLAUDE.md held, unless their heading is in it.
unfoldable pub with_instructions : Text → Text
with_instructions old =
    if contains old integration
    then old
    else old ++ ((if is_empty old then [] else 10 ∷ 10 ∷ []) ++ claude_md)

-- What an installation for Claude Code leaves at the two paths.
pub record IsInstalled (md skill : Text) (files files' : Files) : Type 0 where
  pub instructions : text_at md files' ≡ with_instructions (text_at md files)
  pub skill_file : lookup skill files' ≡ some claude_skill

make_dir_same :
    (faults : Faults) (path : Text) (files : Files) → (make_dir faults path files).0 ≡ files
unfolding make_dir
make_dir_same faults path files = ground arith

write_file_ok :
    (faults : Faults) (path content : Text) (files : Files)
    → (write_file faults path content files).1 ≡ ok tt
    → (write_file faults path content files).0 ≡ insert path content files
unfolding write_file
write_file_ok faults path content files done =
    elim (Bool-cases (faults.no_open path || faults.no_write path)) [
      | inl failed ↦ absurd (cc (rw failed at done))
      | inr fine ↦ rw fine refl
    ]

appended-IsInstalled :
    (faults : Faults) (md skill : Text) (files : Files)
    → faults.no_read md ≡ false
    → text_eq skill md ≡ false
    → (append_if_absent faults md claude_md integration (insert skill claude_skill files)).1 ≡ ok tt
    → IsInstalled md skill files
        (append_if_absent faults md claude_md integration (insert skill claude_skill files)).0
unfolding with_instructions text_at
appended-IsInstalled faults md skill files readable other done =
    let files1 = insert skill claude_skill files in
    let before : lookup md files1 ≡ lookup md files =
      lookup-insert skill md claude_skill files ∙ rw other refl in
    let same : text_at md files1 ≡ text_at md files = rw (before, text_at) refl in
    let distinct : skill ≢ md = λ e. cc ((text_eq_iff skill md).1 e, other) in
    record {
      instructions =
          append_if_absent_text faults md claude_md integration files1 readable done
          ∙ ap with_instructions same;
      skill_file =
          (append_if_absent-IsAppended faults md claude_md integration files1 readable
              claude_md-integration done).others
            skill distinct
          ∙ lookup-insert_self skill claude_skill files;
    }

-- An installation for Claude Code that succeeds.
pub claude-IsInstalled :
    (faults : Faults) (a : DetectedAgent) (md skill : Text) (files : Files)
    → join_path a.config_dir (codes "CLAUDE.md") ≡ md
    → join_path (join_path a.config_dir (codes "skills")) (codes "locksmith.md") ≡ skill
    → faults.no_read md ≡ false
    → text_eq skill md ≡ false
    → (install_claude_code faults a files).1 ≡ ok tt
    → IsInstalled md skill files (install_claude_code faults a files).0
unfolding install_claude_code
claude-IsInstalled faults a md skill files at_md at_skill readable other done =
    let dir : Text = join_path a.config_dir (codes "skills") in
    let append : Files → Files × Result Error (Unit {0}) =
      append_if_absent faults md claude_md integration in
    let write : Files → Files × Result Error (Unit {0}) =
      λ files1. and_then (write_file faults skill claude_skill files1) append in
    let made : Files = (make_dir faults dir files).0 in
    let e0 : install_claude_code faults a files ≡ and_then (make_dir faults dir files) write =
      rw (at_md, at_skill) refl in
    let d1 = ap (λ r. r.1) (sym e0) ∙ done in
    let e1 : and_then (make_dir faults dir files) write ≡ write made =
      and_then-ok (make_dir faults dir files) write d1 in
    let d2 = ap (λ r. r.1) (sym e1) ∙ d1 in
    let written : Files × Result Error (Unit {0}) = write_file faults skill claude_skill made in
    let e2 : write made ≡ append written.0 = and_then-ok written append d2 in
    let e3 : append written.0 ≡ append (insert skill claude_skill files) = ap append (
      write_file_ok faults skill claude_skill made (and_then-first written append d2)
      ∙ ap (insert skill claude_skill) (make_dir_same faults dir files)) in
    let e = e0 ∙ (e1 ∙ (e2 ∙ e3)) in
    subst (λ (r : Files × Result Error (Unit {0})). IsInstalled md skill files r.0) (sym e)
      (appended-IsInstalled faults md skill files readable other (ap (λ r. r.1) (sym e) ∙ done))

abbrev pub plain_agent : Text → Text → Text → DetectedAgent
plain_agent name home_path binary_name = record {
  name = name;
  detected = false;
  config_dir = [];
  home_path = home_path;
  binary_name = binary_name;
}

abbrev pub undetected_claude : DetectedAgent
undetected_claude = plain_agent (codes "Claude Code") (codes ".claude") (codes "claude")

abbrev pub claude_query : Text
claude_query = codes "claude"

detect-name :
    (sys : System) (home_dir : Text) (a : DetectedAgent)
    → (detect_agent sys home_dir a).name ≡ a.name
unfolding detect_agent
detect-name sys home_dir a = elim (Bool-cases (sys.stats (join_path home_dir a.home_path))) [
  | inl there ↦ rw there refl
  | inr absent ↦ rw absent (elim (Bool-cases (sys.in_path a.binary_name)) [
    | inl found ↦ rw found refl
    | inr gone ↦ rw gone refl
  ])
]

-- A system on which Claude Code has left no trace.
pub record HasNoClaude (sys : System) (home_dir : Text) : Type 0 where
  pub no_dir : sys.stats (join_path home_dir (codes ".claude")) ≡ false
  pub no_binary : sys.in_path (codes "claude") ≡ false

stays-undetected :
    (sys : System) (home_dir : Text)
    → HasNoClaude sys home_dir
    → detect_agent sys home_dir undetected_claude ≡ undetected_claude
unfolding detect_agent
stays-undetected sys home_dir h = rw (h.no_dir) (rw (h.no_binary) refl)

module _ (machine : Machine) (home : Home) (opts : InitOptions) (p : Prompter) where
  matches_only :
      (x y z : DetectedAgent)
      → agent_matches x.name claude_query ≡ true
      → agent_matches y.name claude_query ≡ false
      → agent_matches z.name claude_query ≡ false
      → matching_agents machine home opts p claude_query (x ∷ y ∷ z ∷ []) ≡ x ∷ []
  unfolding matching_agents
  matches_only x y z hx hy hz = rw (hx, hy, hz) refl

  matched :
      (home_dir : Text)
      → matching_agents machine home opts p claude_query (detect_agents machine.system home_dir)
        ≡ detect_agent machine.system home_dir undetected_claude ∷ []
  unfolding detect_agents known_agents agent_matches to_lower to_lower_byte text_eq
  matched home_dir =
      let named : (a : DetectedAgent)
          → agent_matches (detect_agent machine.system home_dir a).name claude_query
            ≡ agent_matches a.name claude_query =
        λ a. ap (λ n. agent_matches n claude_query) (detect-name machine.system home_dir a) in
      matches_only _ _ _ (named undetected_claude ∙ refl) (named _ ∙ refl) (named _ ∙ refl)

-- The options of `locksmith init --agent claude`.
abbrev pub only_claude : Bool → InitOptions
only_claude auto = record { auto = auto; agent_only = claude_query; skip_agents = false }

selected-undetected :
    (machine : Machine) (home : Home) (auto : Bool) (p : Prompter) (home_dir : Text)
    (log : List Question)
    → HasNoClaude machine.system home_dir
    → select_agents machine home (only_claude auto) p home_dir log
      ≡ (log, ok (undetected_claude ∷ []))
unfolding select_agents is_empty
selected-undetected machine home auto p home_dir log h =
    ap (λ as_. (log, ok as_))
      (matched machine home (only_claude auto) p home_dir
        ∙ ap (λ a. a ∷ []) (stays-undetected machine.system home_dir h))

joined : join_path [] (codes "CLAUDE.md") ≡ codes "CLAUDE.md"
unfolding join_path clean clean_loop clean_step split_on join_with is_empty text_eq has_prefix
joined = refl

installs_claude :
    (faults : Faults) (home_dir : Text) (files : Files)
    → install_agent faults home_dir undetected_claude files
      ≡ install_claude_code faults undetected_claude files
unfolding install_agent text_eq
installs_claude faults home_dir files = refl

joined_skill :
    join_path (join_path [] (codes "skills")) (codes "locksmith.md") ≡ codes "skills/locksmith.md"
unfolding join_path clean clean_loop clean_step split_on join_with is_empty text_eq has_prefix
joined_skill = refl

-- `--agent claude` on a system without Claude Code selects it all the same, with an empty directory. An
-- installation for it that succeeds, with a CLAUDE.md that can be read or is not there, in whatever
-- directory the command was started in, has written skills/locksmith.md there, and has appended the
-- instructions to that CLAUDE.md, unless their heading was in it already; then it is as it was.
pub install-undetected :
    (machine : Machine) (home : Home) (auto : Bool) (p : Prompter) (home_dir : Text)
    (log : List Question) (faults : Faults) (files : Files)
    → HasNoClaude machine.system home_dir
    → faults.no_read (codes "CLAUDE.md") ≡ false
    → (install_agent faults home_dir undetected_claude files).1 ≡ ok tt
    → (select_agents machine home (only_claude auto) p home_dir log
        ≡ (log, ok (undetected_claude ∷ [])))
      × IsInstalled
          (codes "CLAUDE.md")
          (codes "skills/locksmith.md")
          files
          (install_agent faults home_dir undetected_claude files).0
unfolding text_eq
install-undetected machine home auto p home_dir log faults files h readable done = (
  selected-undetected machine home auto p home_dir log h,
  rw (installs_claude faults home_dir files) (
      claude-IsInstalled faults undetected_claude (codes "CLAUDE.md") (codes "skills/locksmith.md")
        files joined joined_skill readable refl
        (ap (λ r. r.1) (sym (installs_claude faults home_dir files)) ∙ done)),
)
