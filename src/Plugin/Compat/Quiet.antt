-- ===== src/Plugin/Compat/Quiet.antt =====
-- When a plugin raises no compatibility warning.
use locksmith.Common.{
  ◌≡◌, ◌≢◌, ◌∙◌, ◌⊎◌, ◌↔◌, refl, sym, subst, true, false, List, [], ◌∷◌, ◌++◌, inl, inr, some,
  Result, ok, Bool-cases, Result-cases,
}
use locksmith.Common.Int.{pos, ltb_ℤ}
use locksmith.Common.Text.{Text, text_eq, text_eq_iff, is_empty, is_empty_iff, Among}
use locksmith.Semver
use locksmith.Semver.{Version}
use locksmith.Semver.Order.{Before, compare_early_iff, compare_late_iff}
use locksmith.Plugin.Compat.{
  Info, CompatValidator, matches_platform, platform_step, min_step, max_step, version_steps,
  validate,
}

matches-Among : (p : Text) (ps : List Text) → matches_platform p ps ≡ true → Among p ps
unfolding matches_platform
matches-Among p [] e = absurd (cc)
matches-Among p (q ∷ qs) e = elim (Bool-cases (text_eq q p)) [
  | inl same ↦ inl ((text_eq_iff q p).0 same)
  | inr other ↦ inr (matches-Among p qs (rw other at e))
]

Among-matches : (p : Text) (ps : List Text) → Among p ps → matches_platform p ps ≡ true
unfolding matches_platform
Among-matches p [] h = absurd h
Among-matches p (q ∷ qs) (inl e) = rw ((text_eq_iff q p).1 e)
Among-matches p (q ∷ qs) (inr h) = elim (Bool-cases (text_eq q p)) [
  | inl same ↦ rw same
  | inr other ↦ rw other (Among-matches p qs h)
]

-- The plugin names itself and the platform, and the daemon's version is in its range.
pub record IsCompatible (v : CompatValidator) (info : Info) : Type 0 where
  pub named : info.name ≢ []
  pub platform_fits : (info.platforms ≡ []) ⊎ Among v.platform info.platforms
  pub current : Version
  pub is_current : Semver.parse v.locksmith_version ≡ ok current
  pub min : Version
  pub is_min : Semver.parse info.min_locksmith_version ≡ ok min
  pub min_fits : ¬ Before current min
  pub max_fits :
      (info.max_locksmith_version ≡ [])
      ⊎ ((max : Version) × (Semver.parse info.max_locksmith_version ≡ ok max)
          × (¬ Before max current))

append-eq-nil {ℓ} : {A : Type ℓ} (xs ys : List A) → xs ++ ys ≡ [] → (xs ≡ []) × (ys ≡ [])
append-eq-nil [] ys e = (refl, e)
append-eq-nil (x ∷ xs) ys e = absurd (cc)

platform_quiet :
    (v : CompatValidator) (info : Info) (ps : List Text)
    → info.platforms ≡ ps
    → (platform_step v info ≡ []) ↔ ((ps ≡ []) ⊎ Among v.platform ps)
unfolding platform_step
platform_quiet v info [] e = (λ _. inl refl, λ _. rw (e, platform_step))
platform_quiet v info (p ∷ ps) e = elim (Bool-cases (matches_platform v.platform (p ∷ ps))) [
  | inl found ↦
      (λ _. inr (matches-Among v.platform (p ∷ ps) found), λ _. rw (e, platform_step) (rw found))
  | inr lost ↦ (
    λ h. absurd (cc (rw lost at (rw (e, platform_step) at h))),
    λ h. elim h [
      | inl none_listed ↦ absurd (cc)
      | inr listed ↦ absurd (cc (Among-matches v.platform (p ∷ ps) listed))
    ],
  )
]

max_parsed :
    (v : CompatValidator) (info : Info) (current max : Version)
    → is_empty info.max_locksmith_version ≡ false
    → Semver.parse info.max_locksmith_version ≡ ok max
    → (max_step v info current ≡ []) ↔ (¬ Before max current)
unfolding max_step
max_parsed v info current max given e =
    elim (Bool-cases (ltb_ℤ (pos 0) (Semver.compare current max))) [
      | inl late ↦ (
        λ h. absurd (cc (rw late at (rw (e, max_step) at (rw (given, max_step) at h)))),
        λ n. absurd (n ((compare_late_iff current max).0 late)),
      )
      | inr fits ↦ (
        λ h b. cc ((compare_late_iff current max).1 b),
        λ n. rw (given, max_step) (rw (e, max_step) (rw fits)),
      )
    ]

max_quiet :
    (v : CompatValidator) (info : Info) (current : Version)
    → (max_step v info current ≡ []) ↔ (
        (info.max_locksmith_version ≡ [])
        ⊎ ((max : Version) × (Semver.parse info.max_locksmith_version ≡ ok max)
            × (¬ Before max current)))
unfolding max_step
max_quiet v info current = elim (Bool-cases (is_empty info.max_locksmith_version)) [
  | inl unset ↦ (λ _. inl ((is_empty_iff _).0 unset), λ _. rw unset)
  | inr given ↦ elim (Result-cases (Semver.parse info.max_locksmith_version)) [
    | inl (max, e) ↦
        let iff = max_parsed v info current max given e in
        (
          λ h. inr (max, e, iff.0 h),
          λ h. elim h [
            | inl unset ↦ absurd (cc ((is_empty_iff _).1 unset))
            | inr (max', e', fits) ↦
                let same : max' ≡ max = ok_eq max' max (sym e' ∙ e) in
                iff.1 (subst (λ x. ¬ Before x current) same fits)
          ],
        )
    | inr (x, e) ↦ (
      λ h. absurd (cc (rw (e, max_step) at (rw (given, max_step) at h))),
      λ h. elim h [
        | inl unset ↦ absurd (cc ((is_empty_iff _).1 unset))
        | inr (max', e', fits) ↦ absurd (cc)
      ],
    )
  ]
]
  where
    ok_eq : (a b : Version) → ◌≡◌ {A = Result Semver.Error Version} (ok a) (ok b) → a ≡ b
    ok_eq a b h = cc

min_parsed :
    (v : CompatValidator) (info : Info) (current min : Version)
    → is_empty info.min_locksmith_version ≡ false
    → Semver.parse info.min_locksmith_version ≡ ok min
    → (min_step v info current ≡ []) ↔ (¬ Before current min)
unfolding min_step
min_parsed v info current min given e =
    elim (Bool-cases (ltb_ℤ (Semver.compare current min) (pos 0))) [
      | inl early ↦ (
        λ h. absurd (cc (rw early at (rw (e, min_step) at (rw (given, min_step) at h)))),
        λ n. absurd (n ((compare_early_iff current min).0 early)),
      )
      | inr fits ↦ (
        λ h b. cc ((compare_early_iff current min).1 b),
        λ n. rw (given, min_step) (rw (e, min_step) (rw fits)),
      )
    ]

-- A text that parses as a version is not empty.
parse-nil : (w : Version) → Semver.parse [] ≡ ok w → ⊥
unfolding Semver.parse is_empty
parse-nil w e = cc

parsed_given : (s : Text) (w : Version) → Semver.parse s ≡ ok w → is_empty s ≡ false
unfolding is_empty
parsed_given [] w e = absurd (parse-nil w e)
parsed_given (c ∷ s) w e = refl

min_quiet :
    (v : CompatValidator) (info : Info) (current : Version)
    → min_step v info current ≡ []
    → (min : Version) × (Semver.parse info.min_locksmith_version ≡ ok min) × (¬ Before current min)
unfolding min_step
min_quiet v info current h = elim (Bool-cases (is_empty info.min_locksmith_version)) [
  | inl unset ↦ absurd (cc (rw (unset, min_step) at h))
  | inr given ↦ elim (Result-cases (Semver.parse info.min_locksmith_version)) [
    | inl (min, e) ↦ (min, e, (min_parsed v info current min given e).0 h)
    | inr (x, e) ↦ absurd (cc (rw (e, min_step) at (rw (given, min_step) at h)))
  ]
]

version_quiet :
    (v : CompatValidator) (info : Info)
    → version_steps v info ≡ []
    → (current : Version) × (Semver.parse v.locksmith_version ≡ ok current)
      × (min_step v info current ≡ [])
      × (max_step v info current ≡ [])
unfolding version_steps
version_quiet v info h = elim (Result-cases (Semver.parse v.locksmith_version)) [
  | inr (x, e) ↦ absurd (cc (rw (e, version_steps) at h))
  | inl (current, e) ↦
      let (a, b) =
        append-eq-nil (min_step v info current) (max_step v info current)
          (rw (e, version_steps) at h) in
      (current, e, a, b)
]

validate-quiet :
    (v : CompatValidator) (info : Info) → validate v (some info) ≡ [] → IsCompatible v info
unfolding validate
validate-quiet v info h = elim (Bool-cases (is_empty info.name)) [
  | inl unnamed ↦ absurd (cc (rw unnamed at h))
  | inr named ↦
      let (a, b) = append-eq-nil (platform_step v info) (version_steps v info) (rw named at h) in
      let (current, e, lo, hi) = version_quiet v info b in
      let (min, em, fits) = min_quiet v info current lo in
      record {
        named = λ n. cc ((is_empty_iff info.name).1 n);
        platform_fits = (platform_quiet v info info.platforms refl).0 a;
        current = current;
        is_current = e;
        min = min;
        is_min = em;
        min_fits = fits;
        max_fits = (max_quiet v info current).0 hi;
      }
]

named_not_empty : (s : Text) → s ≢ [] → is_empty s ≡ false
unfolding is_empty
named_not_empty [] ne = absurd (ne refl)
named_not_empty (c ∷ s) ne = refl

quiet-validate :
    (v : CompatValidator) (info : Info) → IsCompatible v info → validate v (some info) ≡ []
unfolding validate version_steps
quiet-validate v info c =
    let lo : min_step v info c.current ≡ [] =
      (min_parsed v info c.current c.min (parsed_given info.min_locksmith_version c.min c.is_min)
          c.is_min).1
        c.min_fits in
    rw
      (
        named_not_empty info.name c.named,
        (platform_quiet v info info.platforms refl).1 c.platform_fits,
      )
      (rw (c.is_current, version_steps) (rw (lo, (max_quiet v info c.current).1 c.max_fits)))

-- `Validate` raises no warning exactly when the plugin has a name, names the daemon's platform or no
-- platform, the daemon's version parses and lies between the plugin's minimum, which must be set
-- and parse, and its maximum, which may be unset.
pub validate_quiet_iff :
    (v : CompatValidator) (info : Info) → (validate v (some info) ≡ []) ↔ IsCompatible v info
validate_quiet_iff v info = (validate-quiet v info, quiet-validate v info)
