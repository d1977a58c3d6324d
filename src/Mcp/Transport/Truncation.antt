-- ===== src/Mcp/Transport/Truncation.antt =====
-- What StreamableHTTP of internal/mcp/transport_http.go makes of an event stream with a line that the
-- scanner of parseSSE cannot hold.
use locksmith.Common.{
  ◌<◌, ◌≡◌, ◌∙◌, refl, ap, false, List, ◌∷◌, ◌++◌, map, none, Option, Result, ok, All, length,
}
use locksmith.Common.Text.{Text, codes, has_prefix, contains_byte}
use locksmith.Common.Scan.{
  max_line, scan_lines, scan_upto, unlines, IsScanned, drop_return, scan-too_long,
}
use locksmith.Mcp.Events.{no_event, read_events, parse_sse}
use locksmith.Mcp.Transport.{
  Header, Request, Response, should_retry_with_auth, is_auth_status, forward_all, forwarded,
  data_of,
}
use locksmith.Mcp.Transport.Http
use locksmith.Mcp.Transport.Http.{Http, After}

-- An event stream with a line that is too long for the scanner, behind some that are not.
pub record IsTooLong (resp : Response) (lines : List Text) : Type 0 where
  pub accepted : resp.status ≡ 200
  pub streamed : resp.content_type ≡ codes "text/event-stream"
  pub short : All (IsScanned max_line) lines
  pub long : Text
  pub rest : Text
  pub one_line : contains_byte 10 long ≡ false
  pub too_long : max_line < length long
  pub body_is : resp.body ≡ unlines lines ++ (long ++ (10 ∷ rest))

parse-too_long :
    (resp : Response) (lines : List Text)
    → IsTooLong resp lines
    → parse_sse resp.body ≡ read_events no_event (map drop_return lines)
unfolding parse_sse scan_lines
parse-too_long resp lines h =
    ap (λ b. read_events no_event (scan_upto max_line b)) h.body_is
    ∙ ap (read_events no_event)
        (scan-too_long max_line lines h.long h.rest h.short h.one_line h.too_long)

no_retry : (auth : Option Header) → should_retry_with_auth auth 200 ≡ false
unfolding should_retry_with_auth is_auth_status
no_retry none = refl
no_retry (Option.some h) = refl

taken-too_long :
    (url : Text) (resp : Response) (lines : List Text)
    → IsTooLong resp lines
    → Http.take_response url none resp
      ≡ (data_of (read_events no_event (map drop_return lines)), ok tt)
unfolding Http.take_response
taken-too_long url resp lines h =
    rw (h.accepted, h.streamed, parse-too_long resp lines h)
      (unfold has_prefix forward_all forwarded in refl)

module _ {W : Type 0} (do_request : Request → W → W × Result Text Response)
    (resolve_auth : Option (W → W × Result Text Header)) where
  -- If the answer to a message is an event stream in which a line has 64 KiB or more, Send reports
  -- success and has put on the channel only the events that were complete before that line; that one
  -- and all behind it are lost.
  pub send-IsTooLong :
      (t : Http) (msg : Text) (w w' : W) (resp : Response) (lines : List Text)
      → do_request (Http.post_request t msg) w ≡ (w', ok resp)
      → IsTooLong resp lines
      → Http.send do_request resolve_auth t msg none w ≡ record {
        transport = t;
        world = w';
        messages = data_of (read_events no_event (map drop_return lines));
        result = ok tt;
      }
  unfolding Http.send Http.first_response Http.deliver
  send-IsTooLong t msg w w' resp lines sent h =
      let once : should_retry_with_auth t.cached_auth resp.status ≡ false =
        ap (should_retry_with_auth t.cached_auth) h.accepted ∙ no_retry t.cached_auth in
      ap (Http.first_response do_request resolve_auth t msg none) sent
      ∙ rw once (rw (taken-too_long t.base_url resp lines h) refl)
