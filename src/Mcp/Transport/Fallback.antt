-- ===== src/Mcp/Transport/Fallback.antt =====
-- When AutoTransport of internal/mcp/transport_http.go changes to SSE.
pub mod Answers
pub mod Staying
pub mod Posting
use locksmith.Common.{
  ℕ, ◌≡◌, ◌∙◌, ◌⊎◌, ◌++◌, Result-cases, refl, inl, inr, Bool, true, false, List, [], ◌∷◌, Option,
  none, some, Result, ok, err, arith, if◌then◌else◌, leb, Bool-cases, ◌==◌, ◌||◌, Option-cases,
}
use locksmith.Common.Text.{Text, codes, is_empty, has_prefix}
use locksmith.Mcp.Transport.{
  Header, Request, Response, Error, via_http, falling_back, via_fallback, as_http_status,
  should_retry_with_auth, store_auth, ensure_auth, forward_all, forwarded, data_of,
}
use locksmith.Mcp.Events.{parse_sse}
use locksmith.Mcp.Transport.Logged.{
  Entry, requested, resolved, Logged, logging, logging_once, logging_resolver,
}
use locksmith.Mcp.Transport.Http
use locksmith.Mcp.Transport.Http.{Http, After}
use locksmith.Mcp.Transport.Sse
use locksmith.Mcp.Transport.Sse.{Sse, Wait}
use locksmith.Mcp.Transport.Auto
use locksmith.Mcp.Transport.Auto.{Auto, http_inner, sse_inner, is_fallback_status, falls_back}
use locksmith.Mcp.Transport.Fallback.Answers.{last_is_fallback, result_falls_back, send-Agrees}
use locksmith.Mcp.Transport.Fallback.Posting.{IsPosted, send-IsPosted}
use locksmith.Mcp.Transport.Fallback.Staying.{wrapped, send-Stays, stays-passed, falls-connected}

-- What a fallback leaves, by what the SSE transport's Connect and Send, if Connect succeeds, come to.
unfoldable pub fallen_back :
    {W : Type 0} → Auto → List Text → After Sse W → After Sse W → After Auto W
fallen_back t messages c d = elim c.result [
  | err e ↦ record {
    transport = t;
    world = c.world;
    messages = messages;
    result = err (falling_back e);
  }
  | ok _ ↦ record {
    transport = record {
      base_url = t.base_url;
      static_headers = t.static_headers;
      inner = sse_inner d.transport;
    };
    world = d.world;
    messages = (messages ++ c.messages) ++ d.messages;
    result = elim d.result [ ok _ ↦ ok tt | err e ↦ err (via_fallback e) ];
  }
]

fallen_back_same :
    {W : Type 0} (do_request : Request → W → W × Result Text Response)
    (resolve_auth : Option (W → W × Result Text Header))
    (resolve_reference : Text → Text → Result Text Text) (t : Auto) (msg : Text)
    (messages : List Text) (c : After Sse W)
    → Auto.connected_fallback do_request resolve_auth resolve_reference t msg messages c
      ≡ fallen_back t messages c
          (Sse.send do_request resolve_auth resolve_reference c.transport msg c.world)
unfolding Auto.connected_fallback Auto.sent_fallback fallen_back
fallen_back_same do_request resolve_auth resolve_reference t msg messages c =
    elim (Result-cases c.result) [ inl (u, done) ↦ rw done refl | inr (e, failed) ↦ rw failed refl ]

module _ {W : Type 0} (do_request : Request → W → W × Result Text Response)
    (resolve_auth : Option (W → W × Result Text Header))
    (resolve_reference : Text → Text → Result Text Text) where
  -- One call of Send, by the answer that came last and by the inner transport. Over Streamable HTTP the
  -- outcome is passed on, unless the newest answer is 404 or 405; then an SSE transport without cached
  -- headers is connected. If that fails, the old transport stays and its error is returned; if it
  -- succeeds, the message is given to the SSE transport, whose outcome is returned and which stays as the
  -- inner one, and, if its endpoint is not empty, the first request after connecting is a POST of the
  -- message to that endpoint. Over SSE the outcome is passed on whatever the server answers, so that there
  -- is no second fallback.
  pub send_falls_back :
      (t : Auto) (h : Http) (s : Sse) (msg : Text) (room : Option ℕ) (wait : Wait)
      (log : List Entry) (w : W)
      → let requests = logging do_request in
        let resolver = logging_resolver resolve_auth in
        let a = Http.send requests resolver h msg room (log, w) in
        let t' : Auto = record t { inner = http_inner a.transport } in
        let fresh : Sse = record {
          base_url = t.base_url;
          endpoint = [];
          static_headers = t.static_headers;
          cached_auth = none;
        } in
        let c = Sse.connect requests resolver resolve_reference fresh wait a.world in
        let d = Sse.send requests resolver resolve_reference c.transport msg c.world in
        let b = Sse.send requests resolver resolve_reference s msg (log, w) in
        (Auto.send requests resolver resolve_reference
            (record t { inner = http_inner h })
            msg
            room
            wait
            (log, w)
          ≡ (if last_is_fallback a.world.0 then fallen_back t' a.messages c d else record {
            transport = t';
            world = a.world;
            messages = a.messages;
            result = wrapped a.result;
          }))
        × (((is_empty c.transport.endpoint ≡ true)
              ⊎ IsPosted msg c.transport.endpoint c.world.0 d.world.0)
            × (Auto.send requests resolver resolve_reference
                  (record t { inner = sse_inner s })
                  msg
                  room
                  wait
                  (log, w)
                ≡ record {
                  transport = record t { inner = sse_inner b.transport };
                  world = b.world;
                  messages = b.messages;
                  result = wrapped b.result;
                }))
  unfolding Auto.send Auto.send_inner Auto.new_sse
  send_falls_back t h s msg room wait log w =
      let requests = logging do_request in
      let resolver = logging_resolver resolve_auth in
      let a : After Http (Logged W) = Http.send requests resolver h msg room (log, w) in
      let b : After Sse (Logged W) = Sse.send requests resolver resolve_reference s msg (log, w) in
      let c : After Sse (Logged W) =
        Sse.connect requests resolver resolve_reference (Auto.new_sse t) wait a.world in
      let agrees : result_falls_back a.result ≡ last_is_fallback a.world.0 =
        send-Agrees do_request resolve_auth h msg room log w in
      (
        elim (Bool-cases (last_is_fallback a.world.0)) [
          | inl hit ↦ rw hit (
              falls-connected requests resolver resolve_reference
                (record t { inner = http_inner a.transport }) msg wait a.world a.messages a.result
                (agrees ∙ hit)
              ∙ fallen_back_same requests resolver resolve_reference
                  (record t { inner = http_inner a.transport }) msg a.messages c)
          | inr miss ↦ rw miss (
              stays-passed requests resolver resolve_reference
                (record t { inner = http_inner a.transport }) msg wait a.world a.messages a.result
                (agrees ∙ miss))
        ],
        (
          send-IsPosted do_request resolve_auth resolve_reference c.transport msg c.world.0
              c.world.1,
          stays-passed requests resolver resolve_reference
              (record t { inner = sse_inner b.transport }) msg wait b.world b.messages b.result
              (send-Stays requests resolver resolve_reference s msg (log, w)),
        ),
      )
