-- ===== src/Mcp/Transport/Sse.antt =====
-- SSETransport of internal/mcp/transport_sse.go. How net/url resolves a reference is an argument.
use locksmith.Common.{
  ℕ, Bool, true, false, not, ◌&&◌, ◌||◌, List, [], ◌∷◌, ◌++◌, Option, none, some, Result, ok, err,
  if◌then◌else◌, ◌==◌,
}
use locksmith.Common.Text.{Text, codes, text_eq, is_empty}
use locksmith.Common.Words.{trim_right}
use locksmith.Mcp.Events.{SseEvent, parse_sse}
use locksmith.Mcp.Transport.{
  Header, set_header, copy_headers, effective_headers, get_method, post_method, Request, Response,
  Error, not_connected, request_failed, retry_failed, http_status, unexpected_status, bad_url,
  endpoint_timeout, cancelled, is_auth_status, should_retry_with_auth, ensure_auth,
}
use locksmith.Mcp.Transport.Http.{After}

pub record Sse : Type 0 where
  pub base_url : Text
  pub endpoint : Text
  pub static_headers : Header
  pub cached_auth : Option Header

-- Which case of the select comes first: the endpoint's, if it ever comes, the timer's or the context's.
pub data Wait : Type 0 where
  patient too_long context_done : Wait

unfoldable pub sse_url : Sse → Text
sse_url t = trim_right (λ c. c == b'/') t.base_url ++ codes "/sse"

unfoldable pub open_headers : Header → Header
open_headers effective = copy_headers effective (
    set_header (codes "Cache-Control") (codes "no-cache")
      (set_header (codes "Accept") (codes "text/event-stream") []))

unfoldable pub message_headers : Header → Header
message_headers effective =
    copy_headers effective (set_header (codes "Content-Type") (codes "application/json") [])

unfoldable pub open_request : Sse → Request
open_request t = record {
  method = get_method;
  url = sse_url t;
  headers = open_headers (effective_headers t.static_headers t.cached_auth);
  body = [];
}

unfoldable pub message_request : Sse → Text → Request
message_request t msg = record {
  method = post_method;
  url = t.endpoint;
  headers = message_headers (effective_headers t.static_headers t.cached_auth);
  body = msg;
}

-- The goroutine of Connect: the first endpoint, and the messages that go to the channel.
unfoldable pub split_events : Bool → List SseEvent → Option Text × List Text
split_events endpoint_sent [] = (none, [])
split_events endpoint_sent (e ∷ es) =
    let is_endpoint = not endpoint_sent && text_eq e.event_type (codes "endpoint") in
    let (found, messages) = split_events (endpoint_sent || is_endpoint) es in
    if is_endpoint then (some e.event_data, messages) else (found, e.event_data ∷ messages)

module _ {W : Type 0} (do_request : Request → W → W × Result Text Response)
    (resolve_auth : Option (W → W × Result Text Header))
    (resolve_reference : Text → Text → Result Text Text) where
  unfoldable pub fail : Sse → W → Error → After Sse W
  fail t w e = record { transport = t; world = w; messages = []; result = err e }

  -- The case of the select that gets the endpoint.
  unfoldable pub got_endpoint : Sse → W → List Text → Result Text Text → After Sse W
  got_endpoint t w messages (err e) = fail t w (bad_url e)
  got_endpoint t w messages (ok url) = record {
    transport = record t { endpoint = url };
    world = w;
    messages = messages;
    result = ok tt;
  }

  unfoldable pub await_endpoint : Sse → Wait → W → Option Text × List Text → After Sse W
  await_endpoint t too_long w events = fail t w endpoint_timeout
  await_endpoint t context_done w events = fail t w cancelled
  await_endpoint t patient w (none, messages) = fail t w endpoint_timeout
  await_endpoint t patient w (some ep, messages) =
      got_endpoint t w messages (resolve_reference t.base_url ep)

  unfoldable pub read_stream : Sse → Wait → W → Response → After Sse W
  read_stream t wait w resp = await_endpoint t wait w (split_events false (parse_sse resp.body))

  -- The stream opened again with authentication.
  unfoldable pub reopened : Sse → Wait → W × Result Text Response → After Sse W
  reopened t wait (w, err e) = fail t w (request_failed e)
  reopened t wait (w, ok resp) =
      if is_auth_status resp.status
      then fail t w (http_status resp.status (sse_url t))
      else read_stream t wait w resp

  unfoldable pub reopen : Sse → Wait → ℕ → Option Header × W × Result Error Bool → After Sse W
  reopen t wait status (auth, w, err e) = fail (record t { cached_auth = auth }) w e
  reopen t wait status (auth, w, ok false) =
      fail (record t { cached_auth = auth }) w (http_status status (sse_url t))
  reopen t wait status (auth, w, ok true) =
      let t' : Sse = record t { cached_auth = auth } in
      reopened t' wait (do_request (open_request t') w)

  unfoldable pub opened : Sse → Wait → W × Result Text Response → After Sse W
  opened t wait (w, err e) = fail t w (request_failed e)
  opened t wait (w, ok resp) =
      if is_auth_status resp.status
      then reopen t wait resp.status (ensure_auth resolve_auth t.cached_auth w)
      else read_stream t wait w resp

  -- Connect. The messages are those that the stream brings by the time at which it ends.
  unfoldable pub connect : Sse → Wait → W → After Sse W
  connect t wait w = opened t wait (do_request (open_request t) w)

  -- The end of Send.
  unfoldable pub check_status : Sse → W → ℕ → After Sse W
  check_status t w status =
      if not (status == 202) && not (status == 200)
      then fail t w (unexpected_status status t.endpoint)
      else record { transport = t; world = w; messages = []; result = ok tt }

  unfoldable pub retry_response : Sse → W × Result Text Response → After Sse W
  retry_response t (w, err e) = fail t w (retry_failed e)
  retry_response t (w, ok resp) = check_status t w resp.status

  unfoldable pub retry_with_auth :
      Sse → Text → ℕ → Option Header × W × Result Error Bool → After Sse W
  retry_with_auth t msg status (auth, w, err e) = fail (record t { cached_auth = auth }) w e
  retry_with_auth t msg status (auth, w, ok false) =
      fail (record t { cached_auth = auth }) w (unexpected_status status t.endpoint)
  retry_with_auth t msg status (auth, w, ok true) =
      let t' : Sse = record t { cached_auth = auth } in
      retry_response t' (do_request (message_request t' msg) w)

  unfoldable pub first_response : Sse → Text → W × Result Text Response → After Sse W
  first_response t msg (w, err e) = fail t w (request_failed e)
  first_response t msg (w, ok resp) =
      if should_retry_with_auth t.cached_auth resp.status
      then retry_with_auth t msg resp.status (ensure_auth resolve_auth t.cached_auth w)
      else check_status t w resp.status

  -- Send
  unfoldable pub send : Sse → Text → W → After Sse W
  send t msg w =
      if is_empty t.endpoint
      then fail t w not_connected
      else first_response t msg (do_request (message_request t msg) w)
