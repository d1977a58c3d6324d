-- ===== src/Mcp/Transport.antt =====
-- What the transports of internal/mcp share: headers, requests and responses, and the headers for
-- authentication that they resolve on demand.
--
-- Requests go out through an argument that passes a world `W` along, as the resolver does. The
-- transport's mutex guards a field that only its one sender changes, so its sections are whole here.
pub mod Http
pub mod Sse
pub mod Auto
pub mod Headers
pub mod Logged
pub mod Lazy
pub mod Fallback
pub mod Truncation
pub mod Choice
use locksmith.Common.{
  ℕ, zero, suc, Bool, true, false, not, ◌&&◌, ◌||◌, List, [], ◌∷◌, ◌++◌, Option, none, some, Result,
  ok, err, if◌then◌else◌, ◌==◌, leb, map,
}
use locksmith.Common.Text.{Text, codes, contains_byte, to_lower_byte, to_upper_byte}
use locksmith.Common.Assoc.{Map, insert}
use locksmith.Mcp.Events.{SseEvent}

-- http.Header
abbrev pub Header : Type 0
Header = Map (List Text)

-- A byte of a token of HTTP.
unfoldable pub is_token_byte : ℕ → Bool
is_token_byte c =
    (leb b'a' c && leb c b'z')
    || ((leb b'A' c && leb c b'Z')
        || ((leb b'0' c && leb c b'9') || contains_byte c (codes "!#$%&'*+-.^_`|~")))

unfoldable pub all_token_bytes : Text → Bool
all_token_bytes [] = true
all_token_bytes (c ∷ s) = is_token_byte c && all_token_bytes s

-- Upper case at the start and after a dash, lower case elsewhere.
unfoldable pub capitalise : Bool → Text → Text
capitalise upper [] = []
capitalise upper (c ∷ s) =
    (if upper then to_upper_byte c else to_lower_byte c) ∷ capitalise (c == b'-') s

-- http.CanonicalHeaderKey: a key that is no token stays.
unfoldable pub canonical_key : Text → Text
unfolding is_token_byte
canonical_key k = if all_token_bytes k then capitalise true k else k

-- h.Set(k, v)
unfoldable pub set_header : Text → Text → Header → Header
set_header k v h = insert (canonical_key k) (v ∷ []) h

-- for k, vs := range from { h[k] = vs }
unfoldable pub copy_headers : Header → Header → Header
copy_headers [] h = h
copy_headers ((k, vs) ∷ from) h = copy_headers from (insert k vs h)

abbrev pub header_or_nil : Option Header → Header
header_or_nil none = []
header_or_nil (some h) = h

-- effectiveHeaders
unfoldable pub effective_headers : Header → Option Header → Header
effective_headers static_headers cached_auth =
    copy_headers (header_or_nil cached_auth) (copy_headers static_headers [])

pub data Method : Type 0 where
  get_method post_method : Method

pub record Request : Type 0 where
  pub method : Method
  pub url : Text
  pub headers : Header
  pub body : Text

-- A response. Its body is what can be read of it, and whether reading it fails.
pub record Response : Type 0 where
  pub status : ℕ
  pub content_type : Text
  pub body : Text
  pub read_error : Option Text

pub data Error : Type 0 where
  not_connected : Error
  request_failed : Text → Error
  retry_failed : Text → Error
  resolving_auth : Text → Error
  http_status : ℕ → Text → Error
  unexpected_status : ℕ → Text → Error
  reading_body : Text → Error
  forwarding : Error
  bad_url : Text → Error
  endpoint_timeout : Error
  cancelled : Error
  via_http : Error → Error
  falling_back : Error → Error
  via_fallback : Error → Error

-- errors.As(err, &httpErr): the status that an error carries, also below what wraps it.
unfoldable pub as_http_status : Error → Option ℕ
as_http_status (http_status status url) = some status
as_http_status (via_http e) = as_http_status e
as_http_status (falling_back e) = as_http_status e
as_http_status (via_fallback e) = as_http_status e
as_http_status _ = none

-- 401 or 403
unfoldable pub is_auth_status : ℕ → Bool
is_auth_status status = (status == 401) || (status == 403)

-- shouldRetryWithAuth
unfoldable pub should_retry_with_auth : Option Header → ℕ → Bool
should_retry_with_auth none status = is_auth_status status
should_retry_with_auth (some h) status = false

unfoldable pub take_room : ℕ → List Text → List Text × Bool
take_room room [] = ([], true)
take_room zero (m ∷ ms) = ([], false)
take_room (suc room) (m ∷ ms) = let (sent, all) = take_room room ms in (m ∷ sent, all)

-- The messages that reach the channel, if `room` of them do before the context is done, and whether all
-- do. With `none` the context is not done.
unfoldable pub forward_all : Option ℕ → List Text → List Text × Bool
unfolding take_room
forward_all none messages = (messages, true)
forward_all (some room) messages = take_room room messages

unfoldable pub data_of : List SseEvent → List Text
data_of events = map (λ (e : SseEvent). e.event_data) events

-- The outcome of forwarding.
unfoldable pub forwarded : List Text × Bool → List Text × Result Error (Unit {0})
forwarded (sent, true) = (sent, ok tt)
forwarded (sent, false) = (sent, err forwarding)

module _ {W : Type 0} where
  -- The resolver's answer, stored in the cache.
  unfoldable pub store_auth : W × Result Text Header → Option Header × W × Result Error Bool
  store_auth (w, err e) = (none, w, err (resolving_auth e))
  store_auth (w, ok h) = (some h, w, ok true)

  -- ensureAuth: the cached headers, and whether there are any to send.
  unfoldable pub ensure_auth :
      Option (W → W × Result Text Header)
      → Option Header
      → W
      → Option Header × W × Result Error Bool
  ensure_auth none cached_auth w = (cached_auth, w, ok false)
  ensure_auth (some resolve) (some h) w = (some h, w, ok true)
  ensure_auth (some resolve) none w = store_auth (resolve w)
