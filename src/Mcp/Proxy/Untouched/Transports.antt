-- ===== src/Mcp/Proxy/Untouched/Transports.antt =====
-- That the transports of internal/mcp do not use their resolver when no answer asks for authentication.
use locksmith.Common.{
  ℕ, ◌≡◌, ◌∙◌, refl, ap, inl, inr, Bool, false, List, ◌++◌, Option, none, some, Result, ok, err,
  Result-cases, ◌==◌, ◌||◌,
}
use locksmith.Common.Text.{Text}
use locksmith.Mcp.Transport.{
  Header, set_header, Request, Response, is_auth_status, should_retry_with_auth,
}
use locksmith.Mcp.Transport.Http
use locksmith.Mcp.Transport.Http.{Http, After}
use locksmith.Mcp.Transport.Sse
use locksmith.Mcp.Transport.Sse.{Sse, Wait, too_long, context_done, patient}
use locksmith.Mcp.Transport.Auto
use locksmith.Mcp.Transport.Auto.{Auto, Inner, http_inner, sse_inner, falls_back}
use locksmith.Mcp.Transport.Choice
use locksmith.Mcp.Transport.Choice.{
  Transport, over_http, over_sse, over_auto, as_transport, new_transport,
}

-- A request that the server rejects for want of authentication.
unfoldable pub asks_for_auth : Result Text Response → Bool
asks_for_auth (ok resp) = (resp.status == 401) || (resp.status == 403)
asks_for_auth (err e) = false

no_retry :
    (auth : Option Header) (resp : Response)
    → asks_for_auth (ok resp) ≡ false
    → should_retry_with_auth auth resp.status ≡ false
unfolding asks_for_auth should_retry_with_auth is_auth_status
no_retry none resp h = h
no_retry (some a) resp h = refl

module _ {W : Type 0} (do_request : Request → W → W × Result Text Response)
    (resolve_reference : Text → Text → Result Text Text)
    (r r' : Option (W → W × Result Text Header))
    (open_server : (req : Request) (w : W) → asks_for_auth (do_request req w).1 ≡ false) where
  http_response :
      (t : Http) (msg : Text) (room : Option ℕ) (p : W × Result Text Response)
      → asks_for_auth p.1 ≡ false
      → Http.first_response do_request r t msg room p
        ≡ Http.first_response do_request r' t msg room p
  unfolding Http.first_response Http.fail Http.deliver
  http_response t msg room (w, err e) h = refl
  http_response t msg room (w, ok resp) h = rw (no_retry t.cached_auth resp h) refl

  http_send :
      (t : Http) (msg : Text) (room : Option ℕ) (w : W)
      → Http.send do_request r t msg room w ≡ Http.send do_request r' t msg room w
  unfolding Http.send
  http_send t msg room w =
      http_response t msg room (do_request (Http.post_request t msg) w) (open_server _ w)

  pub stream_same :
      (t : Http) (room : Option ℕ) (w : W)
      → Http.run_get_stream do_request r t room w ≡ Http.run_get_stream do_request r' t room w
  unfolding Http.run_get_stream Http.stream_response
  stream_same t room w = refl

  sse_response :
      (t : Sse) (msg : Text) (p : W × Result Text Response)
      → asks_for_auth p.1 ≡ false
      → Sse.first_response do_request r resolve_reference t msg p
        ≡ Sse.first_response do_request r' resolve_reference t msg p
  unfolding Sse.first_response Sse.fail Sse.check_status
  sse_response t msg (w, err e) h = refl
  sse_response t msg (w, ok resp) h = rw (no_retry t.cached_auth resp h) refl

  sse_send :
      (t : Sse) (msg : Text) (w : W)
      → Sse.send do_request r resolve_reference t msg w
        ≡ Sse.send do_request r' resolve_reference t msg w
  unfolding Sse.send Sse.fail
  sse_send t msg w =
      rw (sse_response t msg (do_request (Sse.message_request t msg) w) (open_server _ w)) refl

  got_same :
      (t : Sse) (w : W) (messages : List Text) (found : Result Text Text)
      → Sse.got_endpoint do_request r resolve_reference t w messages found
        ≡ Sse.got_endpoint do_request r' resolve_reference t w messages found
  unfolding Sse.got_endpoint Sse.fail
  got_same t w messages (ok url) = refl
  got_same t w messages (err e) = refl

  await_same :
      (t : Sse) (wait : Wait) (w : W) (events : Option Text × List Text)
      → Sse.await_endpoint do_request r resolve_reference t wait w events
        ≡ Sse.await_endpoint do_request r' resolve_reference t wait w events
  unfolding Sse.await_endpoint Sse.fail
  await_same t too_long w events = refl
  await_same t context_done w events = refl
  await_same t patient w (none, messages) = refl
  await_same t patient w (some ep, messages) =
      got_same t w messages (resolve_reference t.base_url ep)

  sse_opened :
      (t : Sse) (wait : Wait) (p : W × Result Text Response)
      → asks_for_auth p.1 ≡ false
      → Sse.opened do_request r resolve_reference t wait p
        ≡ Sse.opened do_request r' resolve_reference t wait p
  unfolding Sse.opened Sse.fail Sse.read_stream asks_for_auth is_auth_status
  sse_opened t wait (w, err e) h = refl
  sse_opened t wait (w, ok resp) h = rw h (await_same t wait w _)

  sse_connect :
      (t : Sse) (wait : Wait) (w : W)
      → Sse.connect do_request r resolve_reference t wait w
        ≡ Sse.connect do_request r' resolve_reference t wait w
  unfolding Sse.connect
  sse_connect t wait w = sse_opened t wait (do_request (Sse.open_request t) w) (open_server _ w)

  sent_same :
      (t : Auto) (before : List Text) (a : After Sse W)
      → Auto.sent_fallback do_request r resolve_reference t before a
        ≡ Auto.sent_fallback do_request r' resolve_reference t before a
  unfolding Auto.sent_fallback
  sent_same t before a = refl

  connected_same :
      (t : Auto) (msg : Text) (before : List Text) (c : After Sse W)
      → Auto.connected_fallback do_request r resolve_reference t msg before c
        ≡ Auto.connected_fallback do_request r' resolve_reference t msg before c
  unfolding Auto.connected_fallback
  connected_same t msg before c = elim (Result-cases c.result) [
    | inr (e, failed) ↦ rw failed refl
    | inl (u, done) ↦ rw done (
        ap (Auto.sent_fallback do_request r resolve_reference t (before ++ c.messages))
          (sse_send c.transport msg c.world)
        ∙ sent_same t (before ++ c.messages)
            (Sse.send do_request r' resolve_reference c.transport msg c.world))
  ]

  inner_same :
      (t : Auto) (msg : Text) (wait : Wait) (w : W) (messages : List Text)
      (result : Result locksmith.Mcp.Transport.Error (Unit {0}))
      → Auto.sent_inner do_request r resolve_reference t msg wait w messages result
        ≡ Auto.sent_inner do_request r' resolve_reference t msg wait w messages result
  unfolding Auto.sent_inner
  inner_same t msg wait w messages (ok _) = refl
  inner_same t msg wait w messages (err e) =
      rw
        (
          sse_connect (Auto.new_sse t) wait w,
          connected_same t msg messages
              (Sse.connect do_request r' resolve_reference (Auto.new_sse t) wait w),
        )
        refl

  auto_send :
      (t : Auto) (i : Inner) (msg : Text) (room : Option ℕ) (wait : Wait) (w : W)
      → Auto.send_inner do_request r resolve_reference t i msg room wait w
        ≡ Auto.send_inner do_request r' resolve_reference t i msg room wait w
  unfolding Auto.send_inner
  auto_send t (http_inner h) msg room wait w = rw (http_send h msg room w) (inner_same _ _ _ _ _ _)
  auto_send t (sse_inner s) msg room wait w = rw (sse_send s msg w) (inner_same _ _ _ _ _ _)

  pub connect_same :
      (t : Transport) (wait : Wait) (w : W)
      → Choice.connect do_request r resolve_reference t wait w
        ≡ Choice.connect do_request r' resolve_reference t wait w
  unfolding Choice.connect
  connect_same (over_http t) wait w = refl
  connect_same (over_sse t) wait w = ap (as_transport over_sse) (sse_connect t wait w)
  connect_same (over_auto t) wait w = refl

  pub send_same :
      (t : Transport) (msg : Text) (room : Option ℕ) (wait : Wait) (w : W)
      → Choice.send do_request r resolve_reference t msg room wait w
        ≡ Choice.send do_request r' resolve_reference t msg room wait w
  unfolding Choice.send Auto.send
  send_same (over_http t) msg room wait w = ap (as_transport over_http) (http_send t msg room w)
  send_same (over_sse t) msg room wait w = ap (as_transport over_sse) (sse_send t msg w)
  send_same (over_auto t) msg room wait w =
      ap (as_transport over_auto) (auto_send t t.inner msg room wait w)
