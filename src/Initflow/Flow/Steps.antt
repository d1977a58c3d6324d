-- ===== src/Initflow/Flow/Steps.antt =====
-- Single steps of applyInit of internal/initflow/flow.go, by how they end.
use locksmith.Common.{
  ◌≡◌, ◌∙◌, [], refl, ap, sym, subst, inl, inr, List, Option, none, some, Result, ok, err, wrap_err,
  Bool-cases, Option-cases,
}
use locksmith.Common.Text.{Text, text_eq, text_eq_iff}
use locksmith.Common.Assoc.{Map, lookup, lookup-insert, lookup-insert_self}
use locksmith.Initflow.Agents.{Faults}
use locksmith.Initflow.Json.{Members}
use locksmith.Initflow.Flow.{InitOptions, InitResult, Prompter, Machine, Home, Question, Error}
use locksmith.Initflow.Flow.Applying.{
  Done, next, put_settings, write_config_file, apply_gpg_pinentry_config, finish_init,
  pinentry_path, installs_claude_hook, apply_init,
}
use locksmith.Initflow.Flow.Planning.{plan_init}
use locksmith.Initflow.Flow.Running.{run_init, run_plan, applied}

pub next-holds :
    (P : Home → Type 0) (d : Done) (f : Home → Done)
    → P d.0
    → ((x : Home) → P x → P (f x).0)
    → P (next d f).0
unfolding next
next-holds P (h, err e) f k kf = k
next-holds P (h, ok _) f k kf = kf h k

pub unwrap_ok :
    {E : Type 0} (wrap : E → Error) (r : Result E (Unit {0})) → wrap_err wrap r ≡ ok tt → r ≡ ok tt
unwrap_ok wrap (ok _) h = refl
unwrap_ok wrap (err e) h = absurd (cc)

-- What the second step brings about when both succeed.
pub next_then :
    (P : Home → Type 0) (d : Done) (f : Home → Done)
    → ((x : Home) → (f x).1 ≡ ok tt → P (f x).0)
    → (next d f).1 ≡ ok tt
    → P (next d f).0
unfolding next
next_then P (h, err e) f k done = absurd (cc)
next_then P (h, ok _) f k done = k h done

-- What the first step brings about and the second keeps.
pub next_first :
    (P : Home → Type 0) (d : Done) (f : Home → Done)
    → (d.1 ≡ ok tt → P d.0)
    → ((x : Home) → P x → P (f x).0)
    → (next d f).1 ≡ ok tt
    → P (next d f).0
unfolding next
next_first P (h, err e) f k kf done = absurd (cc)
next_first P (h, ok _) f k kf done = kf h (k refl)

module _ (Q : Option Members → Type 0) where
  -- A settings file that is put keeps what holds of it, if it does so wherever the file was before.
  pub put_keeps :
      (path path' : Text) (file : Option Members) (m : Map Members)
      → Q (lookup path m)
      → (Q (lookup path' m) → Q file)
      → Q (lookup path (put_settings path' file m))
  unfolding put_settings
  put_keeps path path' none m h k = h
  put_keeps path path' (some f) m h k = elim (Bool-cases (text_eq path' path)) [
    | inr other ↦ rw (lookup-insert, other) h
    | inl same ↦
        rw (lookup-insert, same)
          (k (subst (λ x. Q (lookup x m)) (sym ((text_eq_iff path' path).0 same)) h))
  ]

  -- What holds of the file when there is one holds of it once it is put.
  pub put_puts :
      (path : Text) (f : Members) (m : Map Members)
      → Q (some f)
      → Q (lookup path (put_settings path (some f) m))
  unfolding put_settings
  put_puts path f m h = rw lookup-insert_self h

module _ (faults : Faults) (r : InitResult) (home_dir : Text) where
  pub config_settings : (h : Home) → (write_config_file faults r home_dir h).0.settings ≡ h.settings
  unfolding write_config_file apply_gpg_pinentry_config
  config_settings h = elim (Bool-cases r.config_preexisted) [
    | inl kept ↦ rw kept refl
    | inr new ↦ rw new (elim (Bool-cases (faults.no_write r.config_path)) [
      | inl failed ↦ rw failed refl
      | inr written ↦ rw written (elim (Bool-cases r.gpg_pinentry_configured) [
        | inr no_ ↦ rw no_ refl
        | inl yes_ ↦ rw yes_ (elim (Option-cases (lookup (pinentry_path home_dir) h.binaries)) [
          | inl missing ↦ rw (missing, apply_gpg_pinentry_config) refl
          | inr (b, there) ↦ rw (there, apply_gpg_pinentry_config) refl
        ])
      ])
    ])
  ]

  pub finish_ok : (d : Done) → (finish_init faults r d).1 ≡ ok tt → d.1 ≡ ok tt
  unfolding finish_init
  finish_ok (h, err e) done = absurd (cc)
  finish_ok (h, ok _) done = refl

-- The result of a run that succeeds, by what was planned.
abbrev pub with_hook : InitResult → InitResult
with_hook r = record r { claude_hook_installed = installs_claude_hook r r.selected_agents }

applied_ok :
    (r r' : InitResult) (asked : List Question) (d : Done)
    → (applied r asked d).result ≡ ok r'
    → (with_hook r ≡ r') × ((d.1 ≡ ok tt) × ((applied r asked d).home ≡ d.0))
unfolding applied
applied_ok r r' asked (h, err e) done = absurd (cc)
applied_ok r r' asked (h, ok _) done = (cc, (refl, refl))

-- A run that succeeds has planned something and applied it.
pub record IsRun (machine : Machine) (opts : InitOptions) (p : Prompter) (home : Home)
    (r : InitResult) : Type 0 where
  pub home_dir : Text
  pub planned : InitResult
  pub in_home : machine.user_home_dir ≡ some home_dir
  pub is_result : with_hook planned ≡ r
  pub ended : (apply_init machine planned home_dir p opts.auto home).1 ≡ ok tt
  pub leaves :
      (run_init machine opts p home).home ≡ (apply_init machine planned home_dir p opts.auto home).0

run_plan_ok :
    (machine : Machine) (opts : InitOptions) (p : Prompter) (home_dir : Text) (home : Home)
    (r : InitResult) (plan : List Question × Result Error InitResult)
    → (run_plan machine opts p home_dir home plan).result ≡ ok r
    → (planned : InitResult) × ((with_hook planned ≡ r)
        × (((apply_init machine planned home_dir p opts.auto home).1 ≡ ok tt)
            × ((run_plan machine opts p home_dir home plan).home
                ≡ (apply_init machine planned home_dir p opts.auto home).0)))
unfolding run_plan
run_plan_ok machine opts p home_dir home r (asked, err e) done = absurd (cc)
run_plan_ok machine opts p home_dir home r (asked, ok planned) done = (
  planned,
  applied_ok planned r asked (apply_init machine planned home_dir p opts.auto home) done,
)

pub run_init-IsRun :
    (machine : Machine) (opts : InitOptions) (p : Prompter) (home : Home) (r : InitResult)
    → (run_init machine opts p home).result ≡ ok r
    → IsRun machine opts p home r
unfolding run_init
run_init-IsRun machine opts p home r done = elim (Option-cases machine.user_home_dir) [
  | inl e ↦ absurd (cc (rw (e, run_init) at done))
  | inr (home_dir, e) ↦
      let plan : List Question × Result Error InitResult =
        plan_init machine home opts p home_dir [] in
      let step : run_init machine opts p home ≡ run_plan machine opts p home_dir home plan =
        unfold run_init in rw e refl in
      let q =
        run_plan_ok machine opts p home_dir home r plan (ap (λ o. o.result) (sym step) ∙ done) in
      record {
        home_dir = home_dir;
        planned = q.0;
        in_home = e;
        is_result = q.1.0;
        ended = q.1.1.0;
        leaves = ap (λ o. o.home) step ∙ q.1.1.1;
      }
]
