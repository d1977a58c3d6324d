-- ===== src/Initflow/Flow/Running.antt =====
-- RunInit of internal/initflow/flow.go, and what auto mode does not depend on.
use locksmith.Common.{List, [], none, some, Result, ok, err}
use locksmith.Common.Text.{Text}
use locksmith.Initflow.Flow.{
  InitOptions, InitResult, Prompter, Machine, Home, Question, Error, no_home_dir,
}
use locksmith.Initflow.Flow.Planning.{plan_init}
use locksmith.Initflow.Flow.Applying.{apply_init, Done, installs_claude_hook}

-- What the wizard leaves on disk, the questions it asked, newest first, and its result.
pub record Outcome : Type 0 where
  pub home : Home
  pub asked : List Question
  pub result : Result Error InitResult

unfoldable pub applied : InitResult → List Question → Done → Outcome
applied r asked (home, err e) = record { home = home; asked = asked; result = err e }
applied r asked (home, ok _) = record {
  home = home;
  asked = asked;
  result = ok (record r { claude_hook_installed = installs_claude_hook r r.selected_agents });
}

unfoldable pub run_plan :
    Machine
    → InitOptions
    → Prompter
    → Text
    → Home
    → List Question × Result Error InitResult
    → Outcome
run_plan machine opts p home_dir home (asked, err e) = record {
  home = home;
  asked = asked;
  result = err e;
}
run_plan machine opts p home_dir home (asked, ok r) =
    applied r asked (apply_init machine r home_dir p opts.auto home)

-- RunInit
unfoldable pub run_init : Machine → InitOptions → Prompter → Home → Outcome
run_init machine opts p home = elim machine.user_home_dir [
  | none ↦ record { home = home; asked = []; result = err no_home_dir }
  | some home_dir ↦
      run_plan machine opts p home_dir home (plan_init machine home opts p home_dir [])
]
