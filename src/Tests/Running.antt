-- ===== src/Tests/Running.antt =====
-- RunProxy of internal/mcp/proxy.go at concrete inputs.
use locksmith.Common.{ℕ, ◌+◌, ◌≡◌, refl, false, [], ◌∷◌, ◌++◌, none, some, Result, ok, err}
use locksmith.Common.Text.{Text, codes}
use locksmith.Mcp.Secrets.{SecretRef}
use locksmith.Mcp.Transport.{Request, Response}
use locksmith.Mcp.Transport.Sse.{patient}
use locksmith.Mcp.Proxy.{Input, more, last}
use locksmith.Mcp.Proxy.Running.{ProxyConfig, Moment, World, run_proxy}
use locksmith.Mcp.Proxy.Untouched.Transports.{asks_for_auth}
use locksmith.Mcp.Proxy.Untouched.{only_static, run_proxy-only_static}

-- The world counts the requests and what has been asked of the vault.
abbrev public_server : Request → ℕ × ℕ → (ℕ × ℕ) × Result Text Response
public_server req (n, asked) = (
  (n + 1, asked),
  ok (record {
    status = 200;
    content_type = codes "application/json";
    body = codes "{}";
    read_error = none;
  }),
)

abbrev vault : SecretRef → ℕ × ℕ → (ℕ × ℕ) × Result Text Text
vault ref (n, asked) = ((n, asked + 1), ok (codes "s3cret"))

abbrev no_vault : SecretRef → ℕ × ℕ → (ℕ × ℕ) × Result Text Text
no_vault ref w = (w, err (codes "no vault"))

abbrev resolve_reference : Text → Text → Result Text Text
resolve_reference base ref = ok (base ++ ref)

abbrev moment : ℕ × ℕ → Moment
moment w = record { room = none; wait = patient; stream = some none }

abbrev quote : Text → Text
quote s = s

abbrev cfg : ProxyConfig
cfg = record {
  url = codes "http://h";
  transport = codes "auto";
  headers =
      (record { name = codes "Authorization"; template = codes "Bearer {key:k}" })
      ∷ ((record { name = codes "X-Team"; template = codes "a" }) ∷ []);
}

abbrev input : Input
input = more (codes "m") (last (codes "n") none)

abbrev start : World (ℕ × ℕ)
start = record { outside = (0, 0); put = [] }

open_server : (req : Request) (w : ℕ × ℕ) → asks_for_auth (public_server req w).1 ≡ false
unfolding asks_for_auth
open_server req w = refl

run_proxy-only_static_example :
    run_proxy public_server resolve_reference moment quote vault cfg input start
    ≡ run_proxy public_server resolve_reference moment quote no_vault
        (record cfg { headers = only_static cfg.headers })
        input
        start
run_proxy-only_static_example =
    run_proxy-only_static public_server resolve_reference moment quote vault no_vault open_server
      cfg input start
