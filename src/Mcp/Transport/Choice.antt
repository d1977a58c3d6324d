-- ===== src/Mcp/Transport/Choice.antt =====
-- NewTransport of internal/mcp/transport.go, and the calls of the interface Transport.
use locksmith.Common.{ℕ, ◌||◌, [], Option, none, some, Result, ok, err, if◌then◌else◌}
use locksmith.Common.Text.{Text, codes, text_eq, is_empty}
use locksmith.Mcp.Transport.{Header, Request, Response}
use locksmith.Mcp.Transport.Http
use locksmith.Mcp.Transport.Http.{Http, After}
use locksmith.Mcp.Transport.Sse
use locksmith.Mcp.Transport.Sse.{Sse, Wait}
use locksmith.Mcp.Transport.Auto
use locksmith.Mcp.Transport.Auto.{Auto, Inner, http_inner, sse_inner}

pub data Transport : Type 0 where
  over_http : Http → Transport
  over_sse : Sse → Transport
  over_auto : Auto → Transport

unfoldable pub new_http : Text → Header → Http
new_http base_url static_headers = record {
  base_url = base_url;
  static_headers = static_headers;
  cached_auth = none;
}

-- NewTransport; the error is the unknown name. The inner transport of an AutoTransport, which is not
-- there yet, is the one that its Connect makes before anything uses it.
unfoldable pub new_transport : Text → Header → Text → Result Text Transport
new_transport base_url static_headers transport =
    if text_eq transport (codes "http")
    then ok (over_http (new_http base_url static_headers))
    else if text_eq transport (codes "sse")
    then ok (
        over_sse (record {
          base_url = base_url;
          endpoint = [];
          static_headers = static_headers;
          cached_auth = none;
        }))
    else if text_eq transport (codes "auto") || is_empty transport
    then ok (
        over_auto (record {
          base_url = base_url;
          static_headers = static_headers;
          inner = http_inner (new_http base_url static_headers);
        }))
    else err transport

unfoldable pub inner_http : Inner → Option Http
inner_http (http_inner h) = some h
inner_http (sse_inner s) = none

-- The transport whose Connect has started a stream of notifications.
unfoldable pub streaming : Transport → Option Http
streaming (over_http h) = some h
streaming (over_sse s) = none
streaming (over_auto t) = inner_http t.inner

abbrev pub as_transport : {T W : Type 0} → (T → Transport) → After T W → After Transport W
as_transport over a = record {
  transport = over a.transport;
  world = a.world;
  messages = a.messages;
  result = a.result;
}

-- A call that touches nothing but the transport.
abbrev pub at_once : {W : Type 0} → Transport → W → After Transport W
at_once t w = record { transport = t; world = w; messages = []; result = ok tt }

module _ {W : Type 0} (do_request : Request → W → W × Result Text Response)
    (resolve_auth : Option (W → W × Result Text Header))
    (resolve_reference : Text → Text → Result Text Text) where
  unfoldable pub connect : Transport → Wait → W → After Transport W
  connect (over_http t) wait w = at_once (over_http t) w
  connect (over_sse t) wait w =
      as_transport over_sse (Sse.connect do_request resolve_auth resolve_reference t wait w)
  connect (over_auto t) wait w = at_once (over_auto (Auto.connect t)) w

  unfoldable pub send : Transport → Text → Option ℕ → Wait → W → After Transport W
  send (over_http t) msg room wait w =
      as_transport over_http (Http.send do_request resolve_auth t msg room w)
  send (over_sse t) msg room wait w =
      as_transport over_sse (Sse.send do_request resolve_auth resolve_reference t msg w)
  send (over_auto t) msg room wait w =
      as_transport over_auto (Auto.send do_request resolve_auth resolve_reference t msg room wait w)
