-- ===== src/Tests/Tools.antt =====
-- The pinentry, the MCP runner and the bundle at concrete inputs: internal/pinentry, internal/mcp and
-- internal/bundled.
use locksmith.Bundled.{Entry, keep_all, no_fault, ExtractOptions, World, Files}
use locksmith.Bundled.Extracting.{extract}
use locksmith.Bundled.Integrity.{is_tmp, IsIntact, extract-IsIntact}
use locksmith.Common.{
  ℕ, ◌+◌, ◌≤◌, ◌≡◌, ◌↔◌, refl, false, List, [], ◌∷◌, ◌++◌, All, Option, none, some, Result, ok, err,
  if◌then◌else◌,
}
use locksmith.Common.Text.{Text, codes, text_eq, has_prefix, to_upper, to_upper_byte, is_space}
use locksmith.Common.Split.{cut}
use locksmith.Common.Words.{trim_space, trim_left, fields}
use locksmith.Pinentry
use locksmith.Pinentry.{encode_assuan, decode_percent, State, getpin, read_line, command, pin_lines}
use locksmith.Pinentry.Encoding.{decode_percent-encode_assuan}
use locksmith.Pinentry.Protocol.{
  finals, commands, run-finals, stays_open, count_lines, last_arg, takes_desc, takes_prompt,
  takes_pin, run-getpin,
}
use locksmith.Mcp.Secrets.{SecretRef, FetchError, no_ref, parse_inner_ref, fetch_secret}
use locksmith.Mcp.Secrets.Templates.{Template, plain}
use locksmith.Mcp.Secrets.References.{IsField, IsComplete, named, parse_inner_ref_iff}
use locksmith.Mcp.Secrets.Refreshing.{IsCounted, fetch_secret_bounded}

abbrev pin : Text
pin = b'a' ∷ 10 ∷ b'%' ∷ []

decode_percent-encode_assuan_example : decode_percent (encode_assuan pin) ≡ pin
decode_percent-encode_assuan_example = decode_percent-encode_assuan pin

-- The first call gives a passphrase, and every later one is cancelled.
abbrev get_password : ℕ → Text → Text → Option Text
get_password n desc prompt = if text_eq desc (codes "Key 1") then some pin else none

abbrev before : List Text
before = codes "SETDESC Key%201" ∷ codes "GETPIN" ∷ codes "setprompt PIN" ∷ []

session :
    Pinentry.run get_password
      (codes "SETDESC Key%201" ∷ codes "GETPIN" ∷ codes "BYE" ∷ codes "NOP" ∷ [])
    ≡ codes "OK Pleased to meet you"
      ∷ codes "OK"
      ∷ codes "D a%0A%25"
      ∷ codes "OK"
      ∷ codes "OK closing connection"
      ∷ []
unfolding Pinentry.run Pinentry.run_loop Pinentry.respond read_line command cut trim_space trim_left
    is_space to_upper to_upper_byte text_eq decode_percent Pinentry.escape Pinentry.hex_val
    pin_lines encode_assuan Pinentry.is_special Pinentry.upper_hex
session = refl

run-finals_example : finals (Pinentry.run get_password before) ≡ 1 + commands before
run-finals_example = run-finals get_password before

run-getpin_example :
    Pinentry.run get_password (before ++ (codes "GETPIN" ∷ []))
    ≡ Pinentry.run get_password before
      ++ pin_lines (
          get_password
            (count_lines takes_pin before)
            (last_arg takes_desc [] before)
            (last_arg takes_prompt [] before))
unfolding stays_open read_line command cut trim_space trim_left is_space to_upper to_upper_byte
    text_eq
run-getpin_example = run-getpin get_password before (codes "GETPIN") refl refl

-- The world counts requests and renewals; the daemon knows the session "new" only.
abbrev Counters : Type 0
Counters = ℕ × ℕ

abbrev ask : Text → SecretRef → Counters → Counters × Result Text Text
ask sid ref (n, m) = (
  (n + 1, m),
  if text_eq sid (codes "new") then ok (codes "{s}") else err (codes "invalid session: gone"),
)

abbrev refresh : Counters → Counters × Result Text Text
refresh (n, m) = ((n, m + 1), ok (codes "new"))

abbrev github : SecretRef
github = record no_ref { key_alias = codes "github" }

abbrev token : Template
token = record { holes = (codes "Bearer ", codes "key:github") ∷ []; ending = plain (codes "!") }

parse_inner_ref_iff_example : (parse_inner_ref (codes " key:github") ≡ ok github) ↔ (
    All IsField (fields (codes " key:github"))
    × (IsComplete (named (codes " key:github")) × (github ≡ named (codes " key:github"))))
parse_inner_ref_iff_example = parse_inner_ref_iff (codes " key:github") github

counted : IsCounted ask (λ (w : Counters). w.0) (λ (w : Counters). w.1) refresh
counted = record { request_moves = λ sid ref w. (refl, refl); refresh_moves = λ w. (refl, refl) }

abbrev fetched : Text × Counters × Result FetchError Text
fetched = fetch_secret ask (some refresh) github (codes "old") (λ x. x) (0, 0)

fetch_secret_bounded_example :
    (fetched.1.0 ≤ 0 + 2)
    × (fetched.1.1 ≤ 0 + (if text_eq (codes "old") (codes "old") then 1 else 0))
fetch_secret_bounded_example =
    fetch_secret_bounded ask (λ (w : Counters). w.0) (λ (w : Counters). w.1) refresh github
      (codes "old") (λ x. x) (0, 0) counted

abbrev gopass_entry : Entry
gopass_entry = record { name = codes "gopass"; kind = codes "plugin"; sha256 = codes "v2" }

-- The hash of a content is the content.
abbrev world : World
world = record {
  entries = gopass_entry ∷ [];
  content = λ name. some (codes "v2");
  sha = λ bytes. bytes;
  fault = λ path. no_fault;
}

abbrev opts : ExtractOptions
opts = record {
  names = codes "gopass" ∷ codes "gopass" ∷ [];
  plugins_dir = codes "/p";
  pinentry_path = codes "/b/pinentry";
  prompter = some (λ name existing new. ok keep_all);
  force_overwrite = false;
}

abbrev disk : Files
disk = (codes "/p/gopass", codes "v1") ∷ []

extract-IsIntact_example : IsIntact world opts (codes "/p/gopass") disk (extract world opts disk).0
unfolding is_tmp has_prefix
extract-IsIntact_example = extract-IsIntact world opts (codes "/p/gopass") disk refl
