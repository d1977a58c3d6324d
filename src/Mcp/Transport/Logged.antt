-- ===== src/Mcp/Transport/Logged.antt =====
-- A log of what the transports of internal/mcp ask of their environment, and the order in which they may
-- ask it.
use locksmith.Common.{
  ℕ, ◌+◌, ◌≤◌, ◌≡◌, refl, Bool, true, List, [], ◌∷◌, Option, none, some, Result, ok, err, arith,
}
use locksmith.Common.Text.{Text}
use locksmith.Common.Assoc.{lookup}
use locksmith.Mcp.Transport.Headers.{expected_value}
use locksmith.Mcp.Transport.{
  Header, Method, Request, Response, Error, is_auth_status, store_auth, ensure_auth,
}

pub data Entry : Type 0 where
  requested : Request → Result Text Response → Entry
  resolved : Result Text Header → Entry

-- The world with a log, newest entry first.
abbrev pub Logged : Type 0 → Type 0
Logged W = List Entry × W

module _ {W : Type 0} where
  unfoldable pub logging :
      (Request → W → W × Result Text Response)
      → Request
      → Logged W
      → Logged W × Result Text Response
  logging do_request req (log, w) =
      let (w', r) = do_request req w in ((requested req r ∷ log, w'), r)

  unfoldable pub logging_once :
      (W → W × Result Text Header) → Logged W → Logged W × Result Text Header
  logging_once resolve (log, w) = let (w', r) = resolve w in ((resolved r ∷ log, w'), r)

  unfoldable pub logging_resolver :
      Option (W → W × Result Text Header) → Option (Logged W → Logged W × Result Text Header)
  unfolding logging_once
  logging_resolver none = none
  logging_resolver (some resolve) = some (logging_once resolve)

-- The order in which a transport with these static headers may ask: any request, with the static
-- headers and those that have been resolved by then beside the fixed ones; and the resolver only right
-- after a request that was answered by 401 or 403, and only until it has succeeded once.
pub data IsLazy (fixed : Method → Header) (static_headers : Header)
    : List Entry → Option Header → Type 0 where
  begins : IsLazy fixed static_headers [] none
  requests :
      {log : List Entry} {auth : Option Header} (req : Request) (r : Result Text Response)
      → ((k : Text)
          → lookup k req.headers ≡ expected_value k auth static_headers (fixed req.method))
      → IsLazy fixed static_headers log auth
      → IsLazy fixed static_headers (requested req r ∷ log) auth
  refuses :
      {log : List Entry} (req : Request) (resp : Response) (e : Text)
      → is_auth_status resp.status ≡ true
      → IsLazy fixed static_headers (requested req (ok resp) ∷ log) none
      → IsLazy fixed static_headers (resolved (err e) ∷ requested req (ok resp) ∷ log) none
  resolves :
      {log : List Entry} (req : Request) (resp : Response) (h : Header)
      → is_auth_status resp.status ≡ true
      → IsLazy fixed static_headers (requested req (ok resp) ∷ log) none
      → IsLazy fixed static_headers (resolved (ok h) ∷ requested req (ok resp) ∷ log) (some h)

-- How often the resolver has succeeded.
unfoldable pub resolutions : List Entry → ℕ
resolutions [] = 0
resolutions (requested req r ∷ log) = resolutions log
resolutions (resolved (ok h) ∷ log) = 1 + resolutions log
resolutions (resolved (err e) ∷ log) = resolutions log

abbrev count_auth : Option Header → ℕ
count_auth none = 0
count_auth (some h) = 1

module _ {fixed : Method → Header} {static_headers : Header} where
  IsLazy-count :
      {log : List Entry} {auth : Option Header}
      → IsLazy fixed static_headers log auth
      → resolutions log ≡ count_auth auth
  unfolding resolutions
  IsLazy-count begins = refl
  IsLazy-count (requests req r h l) = IsLazy-count l
  IsLazy-count (refuses req resp e h l) = IsLazy-count l
  IsLazy-count (resolves req resp h' h l) = omega (arith, IsLazy-count l)

  pub resolutions-le-one :
      (log : List Entry) (auth : Option Header)
      → IsLazy fixed static_headers log auth
      → resolutions log ≤ 1
  resolutions-le-one log none l = omega (arith, IsLazy-count l)
  resolutions-le-one log (some h) l = omega (arith, IsLazy-count l)

-- The cache and the log after ensureAuth.
abbrev pub Ensured :
    (Method → Header)
    → Header
    → {W : Type 0} → Option Header × Logged W × Result Error Bool
    → Type 0
Ensured fixed static_headers (auth, (log, w), r) = IsLazy fixed static_headers log auth

module _ (fixed : Method → Header) (static_headers : Header) {W : Type 0} where
  store_auth-Ensured :
      (log : List Entry) (w : W) (req : Request) (resp : Response) (r : Result Text Header)
      → is_auth_status resp.status ≡ true
      → IsLazy fixed static_headers (requested req (ok resp) ∷ log) none
      → Ensured fixed static_headers
          (store_auth ((resolved r ∷ requested req (ok resp) ∷ log, w), r))
  unfolding store_auth
  store_auth-Ensured log w req resp (ok h) is_auth l = resolves req resp h is_auth l
  store_auth-Ensured log w req resp (err e) is_auth l = refuses req resp e is_auth l

  pub ensure_auth-Ensured :
      (resolve_auth : Option (W → W × Result Text Header)) (auth : Option Header) (log : List Entry)
      (w : W) (req : Request) (resp : Response)
      → is_auth_status resp.status ≡ true
      → IsLazy fixed static_headers (requested req (ok resp) ∷ log) auth
      → Ensured fixed static_headers
          (ensure_auth (logging_resolver resolve_auth) auth (requested req (ok resp) ∷ log, w))
  unfolding ensure_auth logging_resolver
  ensure_auth-Ensured none auth log w req resp is_auth l = l
  ensure_auth-Ensured (some resolve) (some h) log w req resp is_auth l = l
  ensure_auth-Ensured (some resolve) none log w req resp is_auth l =
      store_auth-Ensured log (resolve w).0 req resp (resolve w).1 is_auth l
