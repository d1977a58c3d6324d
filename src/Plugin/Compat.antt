-- ===== src/Plugin/Compat.antt =====
-- internal/plugin/compat.go: what a plugin says of itself against the running daemon. A message is
-- kept as its format with the arguments, not as the formatted text.
pub mod Quiet
use locksmith.Common.{
  ℕ, ◌≡◌, Bool, true, false, not, List, [], ◌∷◌, ◌++◌, Option, none, some, Result, ok, err,
  if◌then◌else◌,
}
use locksmith.Common.Int.{pos, ltb_ℤ}
use locksmith.Common.Text.{Text, text_eq, is_empty}
use locksmith.Semver
use locksmith.Semver.{Version}

-- The fields of vaultv1.InfoResponse that the daemon reads.
pub record Info : Type 0 where
  pub name : Text
  pub version : Text
  pub platforms : List Text
  pub min_locksmith_version : Text
  pub max_locksmith_version : Text

pub data WarnKind : Type 0 where
  platform_mismatch daemon_too_new daemon_too_old info_unavailable info_empty : WarnKind
  min_version_missing invalid_min_version invalid_max_version invalid_semver : WarnKind

pub data Message : Type 0 where
  empty_response : Message
  supports : List Text → Text → Message
  bad_local : Text → Semver.Error → Message
  no_min_version : Message
  bad_min : Text → Semver.Error → Message
  below_min : Text → Text → Message
  bad_max : Text → Semver.Error → Message
  above_max : Text → Text → Message
  failed : Text → Message

pub record CompatWarning : Type 0 where
  pub kind : WarnKind
  pub message : Message

pub record CompatValidator : Type 0 where
  pub platform : Text
  pub locksmith_version : Text

-- The loop over info.Platforms.
unfoldable pub matches_platform : Text → List Text → Bool
matches_platform platform [] = false
matches_platform platform (p ∷ ps) =
    let rest = matches_platform platform ps in if text_eq p platform then true else rest

-- Step 1
unfoldable pub platform_step : CompatValidator → Info → List CompatWarning
platform_step v info = elim info.platforms [
  | [] ↦ []
  | p ∷ ps ↦
      if matches_platform v.platform (p ∷ ps)
      then []
      else record { kind = platform_mismatch; message = supports (p ∷ ps) v.platform } ∷ []
]

-- Step 2
unfoldable pub min_step : CompatValidator → Info → Version → List CompatWarning
min_step v info current =
    if is_empty info.min_locksmith_version
    then record { kind = min_version_missing; message = no_min_version } ∷ []
    else elim (Semver.parse info.min_locksmith_version) [
      | err e ↦
          record { kind = invalid_min_version; message = bad_min info.min_locksmith_version e } ∷ []
      | ok min ↦
          if ltb_ℤ (Semver.compare current min) (pos 0)
          then record {
            kind = daemon_too_old;
            message = below_min info.min_locksmith_version v.locksmith_version;
          }
            ∷ []
          else []
    ]

-- Step 3
unfoldable pub max_step : CompatValidator → Info → Version → List CompatWarning
max_step v info current =
    if is_empty info.max_locksmith_version
    then []
    else elim (Semver.parse info.max_locksmith_version) [
      | err e ↦
          record { kind = invalid_max_version; message = bad_max info.max_locksmith_version e } ∷ []
      | ok max ↦
          if ltb_ℤ (pos 0) (Semver.compare current max)
          then record {
            kind = daemon_too_new;
            message = above_max info.max_locksmith_version v.locksmith_version;
          }
            ∷ []
          else []
    ]

-- The two version steps, behind the parse of the daemon's own version.
unfoldable pub version_steps : CompatValidator → Info → List CompatWarning
version_steps v info = elim (Semver.parse v.locksmith_version) [
  | err e ↦ record { kind = invalid_semver; message = bad_local v.locksmith_version e } ∷ []
  | ok current ↦ min_step v info current ++ max_step v info current
]

abbrev empty_info : List CompatWarning
empty_info = record { kind = info_empty; message = empty_response } ∷ []

-- Validate. `none` is a nil response.
unfoldable pub validate : CompatValidator → Option Info → List CompatWarning
validate v none = empty_info
validate v (some info) =
    if is_empty info.name then empty_info else platform_step v info ++ version_steps v info
