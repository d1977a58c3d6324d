-- ===== src/Mcp/Transport/Http.antt =====
-- StreamableHTTP of internal/mcp/transport_http.go.
use locksmith.Common.{
  ℕ, Bool, true, false, ◌||◌, List, [], ◌∷◌, Option, none, some, Result, ok, err, if◌then◌else◌,
  ◌==◌, leb,
}
use locksmith.Common.Text.{Text, codes, is_empty, has_prefix}
use locksmith.Mcp.Events.{parse_sse}
use locksmith.Mcp.Transport.{
  Header, set_header, copy_headers, effective_headers, get_method, post_method, Request, Response,
  Error, request_failed, retry_failed, http_status, reading_body, should_retry_with_auth,
  forward_all, forwarded, data_of, ensure_auth,
}

pub record Http : Type 0 where
  pub base_url : Text
  pub static_headers : Header
  pub cached_auth : Option Header

-- What the transport and the world are after a call, the messages that it put on the channel, and its
-- result.
pub record After (T W : Type 0) : Type 0 where
  pub transport : T
  pub world : W
  pub messages : List Text
  pub result : Result Error (Unit {0})

-- The headers of a POST, with those in effect in the place of any of the same key.
unfoldable pub post_headers : Header → Header
post_headers effective = copy_headers effective (
    set_header (codes "Accept") (codes "application/json, text/event-stream")
      (set_header (codes "Content-Type") (codes "application/json") []))

-- The headers of the GET of runGetStream.
unfoldable pub stream_headers : Header → Header
stream_headers effective =
    copy_headers effective (set_header (codes "Accept") (codes "text/event-stream") [])

unfoldable pub post_request : Http → Text → Request
post_request t msg = record {
  method = post_method;
  url = t.base_url;
  headers = post_headers (effective_headers t.static_headers t.cached_auth);
  body = msg;
}

unfoldable pub stream_request : Http → Request
stream_request t = record {
  method = get_method;
  url = t.base_url;
  headers = stream_headers (effective_headers t.static_headers t.cached_auth);
  body = [];
}

-- A JSON body.
unfoldable pub forward_body : Option ℕ → Response → List Text × Result Error (Unit {0})
forward_body room resp = elim resp.read_error [
  | some e ↦ ([], err (reading_body e))
  | none ↦ if is_empty resp.body then ([], ok tt) else forwarded (forward_all room (resp.body ∷ []))
]

-- Send, once the last response is there.
unfoldable pub take_response : Text → Option ℕ → Response → List Text × Result Error (Unit {0})
take_response base_url room resp =
    if leb 400 resp.status
    then ([], err (http_status resp.status base_url))
    else if has_prefix resp.content_type (codes "text/event-stream")
    then forwarded (forward_all room (data_of (parse_sse resp.body)))
    else forward_body room resp

-- The statuses at which runGetStream gives up.
unfoldable pub is_rejected : ℕ → Bool
is_rejected status = (status == 405) || ((status == 404) || ((status == 401) || (status == 403)))

module _ {W : Type 0} (do_request : Request → W → W × Result Text Response)
    (resolve_auth : Option (W → W × Result Text Header)) where
  unfoldable pub deliver : Http → Option ℕ → W → Response → After Http W
  deliver t room w resp =
      let (messages, result) = take_response t.base_url room resp in
      record { transport = t; world = w; messages = messages; result = result }

  unfoldable pub fail : Http → W → Error → After Http W
  fail t w e = record { transport = t; world = w; messages = []; result = err e }

  -- The second POST.
  unfoldable pub retry_response : Http → Option ℕ → W × Result Text Response → After Http W
  retry_response t room (w, err e) = fail t w (retry_failed e)
  retry_response t room (w, ok resp) = deliver t room w resp

  -- After ensureAuth.
  unfoldable pub retry_with_auth :
      Http → Text → Option ℕ → ℕ → Option Header × W × Result Error Bool → After Http W
  retry_with_auth t msg room status (auth, w, err e) = fail (record t { cached_auth = auth }) w e
  retry_with_auth t msg room status (auth, w, ok false) =
      fail (record t { cached_auth = auth }) w (http_status status t.base_url)
  retry_with_auth t msg room status (auth, w, ok true) =
      let t' : Http = record t { cached_auth = auth } in
      retry_response t' room (do_request (post_request t' msg) w)

  -- After the first POST.
  unfoldable pub first_response : Http → Text → Option ℕ → W × Result Text Response → After Http W
  first_response t msg room (w, err e) = fail t w (request_failed e)
  first_response t msg room (w, ok resp) =
      if should_retry_with_auth t.cached_auth resp.status
      then retry_with_auth t msg room resp.status (ensure_auth resolve_auth t.cached_auth w)
      else deliver t room w resp

  -- Send
  unfoldable pub send : Http → Text → Option ℕ → W → After Http W
  send t msg room w = first_response t msg room (do_request (post_request t msg) w)

  unfoldable pub stream_response : Option ℕ → W × Result Text Response → W × List Text
  stream_response room (w, err e) = (w, [])
  stream_response room (w, ok resp) =
      if is_rejected resp.status
      then (w, [])
      else (w, (forward_all room (data_of (parse_sse resp.body))).0)

  -- runGetStream, which Connect starts: the messages that it puts on the channel.
  unfoldable pub run_get_stream : Http → Option ℕ → W → W × List Text
  run_get_stream t room w = stream_response room (do_request (stream_request t) w)
