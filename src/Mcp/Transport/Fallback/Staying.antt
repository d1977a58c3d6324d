-- ===== src/Mcp/Transport/Fallback/Staying.antt =====
-- When Send of AutoTransport, internal/mcp/transport_http.go, keeps its inner transport.
use locksmith.Common.{
  ℕ, ◌≡◌, refl, inl, inr, true, false, List, Option, none, some, Result, ok, err, arith, Bool-cases,
}
use locksmith.Common.Text.{Text, is_empty}
use locksmith.Mcp.Transport.{
  Header, Request, Response, Error, via_http, as_http_status, should_retry_with_auth, store_auth,
  ensure_auth,
}
use locksmith.Mcp.Transport.Http.{After}
use locksmith.Mcp.Transport.Sse
use locksmith.Mcp.Transport.Sse.{Sse, Wait}
use locksmith.Mcp.Transport.Auto
use locksmith.Mcp.Transport.Auto.{Auto, http_inner, sse_inner, is_fallback_status, falls_back}
use locksmith.Mcp.Transport.Fallback.Answers.{result_falls_back}

unfoldable pub wrapped : Result Error (Unit {0}) → Result Error (Unit {0})
wrapped (ok _) = ok tt
wrapped (err e) = err (via_http e)

module _ {W : Type 0} (do_request : Request → W → W × Result Text Response)
    (resolve_auth : Option (W → W × Result Text Header))
    (resolve_reference : Text → Text → Result Text Text) where
  abbrev Stays : After Sse W → Type 0
  Stays a = result_falls_back a.result ≡ false

  status-Stays :
      (t : Sse) (w : W) (status : ℕ)
      → Stays (Sse.check_status do_request resolve_auth resolve_reference t w status)
  unfolding Sse.check_status Sse.fail result_falls_back falls_back as_http_status
  status-Stays t w status = ground arith

  retry-Stays :
      (t : Sse) (r : W × Result Text Response)
      → Stays (Sse.retry_response do_request resolve_auth resolve_reference t r)
  unfolding Sse.retry_response
  retry-Stays t (w, err e) = unfold Sse.fail result_falls_back falls_back as_http_status in refl
  retry-Stays t (w, ok resp) = status-Stays t w resp.status

  stored-Stays :
      (t : Sse) (msg : Text) (status : ℕ) (r : W × Result Text Header)
      → Stays (
          Sse.retry_with_auth do_request resolve_auth resolve_reference t msg status (store_auth r))
  unfolding Sse.retry_with_auth store_auth
  stored-Stays t msg status (w, err e) =
      unfold Sse.fail result_falls_back falls_back as_http_status in refl
  stored-Stays t msg status (w, ok h) = retry-Stays (record t { cached_auth = some h }) _

  ensured-Stays :
      (resolver : Option (W → W × Result Text Header)) (auth : Option Header) (t : Sse) (msg : Text)
      (status : ℕ) (w : W)
      → Stays (
          Sse.retry_with_auth do_request resolve_auth resolve_reference t msg status
            (ensure_auth resolver auth w))
  unfolding ensure_auth
  ensured-Stays none auth t msg status w =
      unfold Sse.retry_with_auth Sse.fail result_falls_back falls_back as_http_status in refl
  ensured-Stays (some resolve) (some h) t msg status w =
      unfold Sse.retry_with_auth in retry-Stays (record t { cached_auth = some h }) _
  ensured-Stays (some resolve) none t msg status w = stored-Stays t msg status (resolve w)

  response-Stays :
      (t : Sse) (msg : Text) (r : W × Result Text Response)
      → Stays (Sse.first_response do_request resolve_auth resolve_reference t msg r)
  unfolding Sse.first_response
  response-Stays t msg (w, err e) =
      unfold Sse.fail result_falls_back falls_back as_http_status in refl
  response-Stays t msg (w, ok resp) =
      elim (Bool-cases (should_retry_with_auth t.cached_auth resp.status)) [
        | inl again ↦ rw again (ensured-Stays resolve_auth t.cached_auth t msg resp.status w)
        | inr done ↦ rw done (status-Stays t w resp.status)
      ]

  pub send-Stays :
      (t : Sse) (msg : Text) (w : W)
      → Stays (Sse.send do_request resolve_auth resolve_reference t msg w)
  unfolding Sse.send
  send-Stays t msg w = elim (Bool-cases (is_empty t.endpoint)) [
    | inl none_yet ↦
        rw none_yet (unfold Sse.fail result_falls_back falls_back as_http_status in refl)
    | inr there ↦ rw there (response-Stays t msg (do_request (Sse.message_request t msg) w))
  ]

  -- A transport that does not fall back passes the outcome on.
  abbrev passed : Auto → W → List Text → Result Error (Unit {0}) → After Auto W
  passed t w messages result = record {
    transport = t;
    world = w;
    messages = messages;
    result = wrapped result;
  }

  pub stays-passed :
      (t : Auto) (msg : Text) (wait : Wait) (w : W) (messages : List Text)
      (r : Result Error (Unit {0}))
      → result_falls_back r ≡ false
      → Auto.sent_inner do_request resolve_auth resolve_reference t msg wait w messages r
        ≡ passed t w messages r
  unfolding Auto.sent_inner result_falls_back wrapped
  stays-passed t msg wait w messages (ok _) h = refl
  stays-passed t msg wait w messages (err e) h = rw h refl

  pub falls-connected :
      (t : Auto) (msg : Text) (wait : Wait) (w : W) (messages : List Text)
      (r : Result Error (Unit {0}))
      → result_falls_back r ≡ true
      → Auto.sent_inner do_request resolve_auth resolve_reference t msg wait w messages r
        ≡ Auto.connected_fallback do_request resolve_auth resolve_reference t msg messages
            (Sse.connect do_request resolve_auth resolve_reference (Auto.new_sse t) wait w)
  unfolding Auto.sent_inner result_falls_back
  falls-connected t msg wait w messages (ok _) h = absurd (cc)
  falls-connected t msg wait w messages (err e) h = rw h refl
