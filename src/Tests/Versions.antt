-- ===== src/Tests/Versions.antt =====
-- Versions, masks and configurations at concrete inputs: internal/semver, sdk/session and
-- internal/config.
use locksmith.Common.{◌≡◌, ◌↔◌, [], ◌∷◌, none, some, ok}
use locksmith.Common.Int.{pos}
use locksmith.Common.Text.{codes}
use locksmith.Semver
use locksmith.Semver.{Version, minus_one}
use locksmith.Semver.Grammar.{IsTriple, parse_iff}
use locksmith.Plugin.Compat
use locksmith.Plugin.Compat.{Info, CompatValidator}
use locksmith.Plugin.Compat.Quiet.{IsCompatible, validate_quiet_iff}
use locksmith.Config
use locksmith.Config.{Config}
use locksmith.Config.Validation.{IsValid, validate_iff}

abbrev pub v1_2_3 : Version
v1_2_3 = record { major = pos 1; minor = pos 2; patch = pos 3 }

abbrev pub v1_3_0 : Version
v1_3_0 = record { major = pos 1; minor = pos 3; patch = pos 0 }

parse_iff_example : (Semver.parse (codes "1.2.03") ≡ ok v1_2_3) ↔ IsTriple (codes "1.2.03") v1_2_3
parse_iff_example = parse_iff (codes "1.2.03") v1_2_3

abbrev gopass_info : Info
gopass_info = record {
  name = codes "gopass";
  version = codes "0.1.0";
  platforms = codes "linux" ∷ codes "darwin" ∷ [];
  min_locksmith_version = codes "1.0.0";
  max_locksmith_version = codes "2.0.0";
}

abbrev pub daemon : CompatValidator
daemon = record { platform = codes "linux"; locksmith_version = codes "1.2.3" }

validate_quiet_iff_example :
    (Compat.validate daemon (some gopass_info) ≡ []) ↔ IsCompatible daemon gopass_info
validate_quiet_iff_example = validate_quiet_iff daemon gopass_info

abbrev pub one_vault : Config
one_vault = record {
  defaults = record { session_ttl = []; socket_path = [] };
  logging = record { level = []; format = []; file = [] };
  agent = record { pass_session_to_subagents = none };
  vaults =
      (codes "work", record { vault_type = codes "gopass"; store = []; account = []; service = [] })
      ∷ [];
  keys = (codes "github", record { vault = codes "work"; path = codes "dev/github" }) ∷ [];
  servers = [];
}

validate_iff_example :
    ((Config.validate (some (codes "/home/me")) one_vault).1 ≡ ok tt) ↔ IsValid one_vault
validate_iff_example = validate_iff (some (codes "/home/me")) one_vault
