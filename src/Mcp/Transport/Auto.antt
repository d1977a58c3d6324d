-- ===== src/Mcp/Transport/Auto.antt =====
-- AutoTransport of internal/mcp/transport_http.go: Streamable HTTP first, and SSE where the server
-- answers 404 or 405.
use locksmith.Common.{
  ℕ, Bool, false, ◌||◌, List, [], ◌++◌, Option, none, some, Result, ok, err, if◌then◌else◌, ◌==◌,
}
use locksmith.Common.Text.{Text}
use locksmith.Mcp.Transport.{
  Header, Request, Response, Error, via_http, falling_back, via_fallback, as_http_status,
}
use locksmith.Mcp.Transport.Http
use locksmith.Mcp.Transport.Http.{Http, After}
use locksmith.Mcp.Transport.Sse
use locksmith.Mcp.Transport.Sse.{Sse, Wait}

-- The inner transport.
pub data Inner : Type 0 where
  http_inner : Http → Inner
  sse_inner : Sse → Inner

pub record Auto : Type 0 where
  pub base_url : Text
  pub static_headers : Header
  pub inner : Inner

-- isFallbackStatus
unfoldable pub is_fallback_status : ℕ → Bool
is_fallback_status code = (code == 404) || (code == 405)

-- The test of Send.
unfoldable pub falls_back : Error → Bool
falls_back e = elim (as_http_status e) [ none ↦ false | some status ↦ is_fallback_status status ]

-- Connect
unfoldable pub connect : Auto → Auto
connect t = record t {
  inner =
      http_inner
        (record { base_url = t.base_url; static_headers = t.static_headers; cached_auth = none });
}

unfoldable pub new_sse : Auto → Sse
new_sse t = record {
  base_url = t.base_url;
  endpoint = [];
  static_headers = t.static_headers;
  cached_auth = none;
}

module _ {W : Type 0} (do_request : Request → W → W × Result Text Response)
    (resolve_auth : Option (W → W × Result Text Header))
    (resolve_reference : Text → Text → Result Text Text) where
  -- After the message has gone out by the SSE transport; `before` are the messages so far.
  unfoldable pub sent_fallback : Auto → List Text → After Sse W → After Auto W
  sent_fallback t before a = record {
    transport = record t { inner = sse_inner a.transport };
    world = a.world;
    messages = before ++ a.messages;
    result = elim a.result [ ok _ ↦ ok tt | err e ↦ err (via_fallback e) ];
  }

  unfoldable pub connected_fallback : Auto → Text → List Text → After Sse W → After Auto W
  connected_fallback t msg before c = elim c.result [
    | err e ↦ record {
      transport = t;
      world = c.world;
      messages = before;
      result = err (falling_back e);
    }
    | ok _ ↦
        sent_fallback t (before ++ c.messages)
          (Sse.send do_request resolve_auth resolve_reference c.transport msg c.world)
  ]

  -- After the inner transport has sent, by which way ever.
  unfoldable pub sent_inner :
      Auto → Text → Wait → W → List Text → Result Error (Unit {0}) → After Auto W
  sent_inner t msg wait w messages (ok _) = record {
    transport = t;
    world = w;
    messages = messages;
    result = ok tt;
  }
  sent_inner t msg wait w messages (err e) =
      if falls_back e
      then connected_fallback t msg messages
          (Sse.connect do_request resolve_auth resolve_reference (new_sse t) wait w)
      else record { transport = t; world = w; messages = messages; result = err (via_http e) }

  unfoldable pub send_inner : Auto → Inner → Text → Option ℕ → Wait → W → After Auto W
  send_inner t (http_inner h) msg room wait w =
      let a = Http.send do_request resolve_auth h msg room w in
      sent_inner (record t { inner = http_inner a.transport }) msg wait a.world a.messages a.result
  send_inner t (sse_inner s) msg room wait w =
      let a = Sse.send do_request resolve_auth resolve_reference s msg w in
      sent_inner (record t { inner = sse_inner a.transport }) msg wait a.world a.messages a.result

  -- Send
  unfoldable pub send : Auto → Text → Option ℕ → Wait → W → After Auto W
  send t msg room wait w = send_inner t t.inner msg room wait w
