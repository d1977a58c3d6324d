-- ===== src/Mcp/Transport/Fallback/Answers.antt =====
-- The answers by which Send of internal/mcp/transport_http.go changes to SSE.
use locksmith.Common.{
  ℕ, ◌≡◌, refl, inl, inr, Bool, true, false, List, [], ◌∷◌, Option, none, some, Result, ok, err,
  arith, leb, Bool-cases, ◌==◌, ◌||◌, Option-cases,
}
use locksmith.Common.Text.{Text, codes, is_empty, has_prefix}
use locksmith.Mcp.Transport.{
  Header, Request, Response, Error, as_http_status, should_retry_with_auth, store_auth, ensure_auth,
  forward_all, forwarded, data_of,
}
use locksmith.Mcp.Events.{parse_sse}
use locksmith.Mcp.Transport.Logged.{
  Entry, requested, resolved, Logged, logging, logging_once, logging_resolver,
}
use locksmith.Mcp.Transport.Http
use locksmith.Mcp.Transport.Http.{Http, After}
use locksmith.Mcp.Transport.Auto.{is_fallback_status, falls_back}

-- The newest entry of a log is an answer by 404 or 405.
unfoldable pub last_is_fallback : List Entry → Bool
last_is_fallback (requested req (ok resp) ∷ log) = (resp.status == 404) || (resp.status == 405)
last_is_fallback _ = false

unfoldable pub result_falls_back : Result Error (Unit {0}) → Bool
result_falls_back (ok _) = false
result_falls_back (err e) = falls_back e

forwarded_falls_back : (r : List Text × Bool) → result_falls_back (forwarded r).1 ≡ false
unfolding forwarded result_falls_back falls_back as_http_status
forwarded_falls_back (sent, true) = refl
forwarded_falls_back (sent, false) = refl

body_falls_back :
    (room : Option ℕ) (resp : Response) → result_falls_back (Http.forward_body room resp).1 ≡ false
unfolding Http.forward_body
body_falls_back room resp = elim (Option-cases resp.read_error) [
  | inr (e, failed) ↦
      rw (failed, Http.forward_body) (unfold result_falls_back falls_back as_http_status in refl)
  | inl read ↦
      rw (read, Http.forward_body)
        (elim (Bool-cases (is_empty resp.body)) [
          | inl nothing ↦ rw nothing (unfold result_falls_back in refl)
          | inr some_body ↦ rw some_body (forwarded_falls_back (forward_all room (resp.body ∷ [])))
        ])
]

below_400 : (status : ℕ) → leb 400 status ≡ false → is_fallback_status status ≡ false
unfolding is_fallback_status
below_400 status h = ground arith

response_falls_back :
    (url : Text) (room : Option ℕ) (resp : Response)
    → result_falls_back (Http.take_response url room resp).1 ≡ is_fallback_status resp.status
unfolding Http.take_response
response_falls_back url room resp = elim (Bool-cases (leb 400 resp.status)) [
  | inl bad ↦ rw bad (unfold result_falls_back falls_back as_http_status in refl)
  | inr good ↦
      rw (good, below_400 resp.status good)
        (elim (Bool-cases (has_prefix resp.content_type (codes "text/event-stream"))) [
          | inl stream ↦
              rw stream (forwarded_falls_back (forward_all room (data_of (parse_sse resp.body))))
          | inr other ↦ rw other (body_falls_back room resp)
        ])
]

module _ {W : Type 0} (do_request : Request → W → W × Result Text Response)
    (resolve_auth : Option (W → W × Result Text Header)) where
  -- The result of a call says what the newest entry of the log says.
  abbrev Agrees : After Http (Logged W) → Type 0
  Agrees a = result_falls_back a.result ≡ last_is_fallback a.world.0

  retried :
      (t : Http) (room : Option ℕ) (req : Request) (log : List Entry) (w : W)
      (r : Result Text Response)
      → Agrees (
          Http.retry_response
            (logging do_request)
            (logging_resolver resolve_auth)
            t
            room
            ((requested req r ∷ log, w), r))
  unfolding Http.retry_response Http.fail Http.deliver last_is_fallback is_fallback_status
  retried t room req log w (err e) = unfold result_falls_back falls_back as_http_status in refl
  retried t room req log w (ok resp) = response_falls_back t.base_url room resp

  stored :
      (t : Http) (msg : Text) (room : Option ℕ) (status : ℕ) (log : List Entry) (w : W)
      (r : Result Text Header)
      → Agrees (
          Http.retry_with_auth
            (logging do_request)
            (logging_resolver resolve_auth)
            t
            msg
            room
            status
            (store_auth ((resolved r ∷ log, w), r)))
  unfolding store_auth Http.retry_with_auth Http.fail last_is_fallback
  stored t msg room status log w (err e) =
      unfold result_falls_back falls_back as_http_status in refl
  stored t msg room status log w (ok h) =
      let t' : Http = record t { cached_auth = some h } in
      let req = Http.post_request t' msg in
      unfold logging in
      retried t' room req (resolved (ok h) ∷ log) (do_request req w).0 (do_request req w).1

  abbrev transport_of : Text → Header → Option Header → Http
  transport_of url static_headers auth = record {
    base_url = url;
    static_headers = static_headers;
    cached_auth = auth;
  }

  delivered :
      (url : Text) (static_headers : Header) (auth : Option Header) (msg : Text) (room : Option ℕ)
      (req : Request) (resp : Response) (log : List Entry) (w : W)
      → should_retry_with_auth auth resp.status ≡ false
      → Agrees (
          Http.first_response
            (logging do_request)
            (logging_resolver resolve_auth)
            (transport_of url static_headers auth)
            msg
            room
            ((requested req (ok resp) ∷ log, w), ok resp))
  unfolding Http.first_response Http.deliver last_is_fallback is_fallback_status
  delivered url static_headers auth msg room req resp log w h =
      rw h (response_falls_back url room resp)

  rejected :
      (resolver : Option (W → W × Result Text Header)) (url : Text) (static_headers : Header)
      (msg : Text) (room : Option ℕ) (req : Request) (resp : Response) (log : List Entry) (w : W)
      → Agrees (
          Http.retry_with_auth
            (logging do_request)
            (logging_resolver resolve_auth)
            (transport_of url static_headers none)
            msg
            room
            resp.status
            (ensure_auth (logging_resolver resolver) none (requested req (ok resp) ∷ log, w)))
  unfolding ensure_auth logging_resolver is_fallback_status
  rejected none url static_headers msg room req resp log w =
      unfold Http.retry_with_auth Http.fail last_is_fallback result_falls_back falls_back
        as_http_status in
      refl
  rejected (some resolve) url static_headers msg room req resp log w =
      unfold logging_once in
      stored (transport_of url static_headers none) msg room resp.status
        (requested req (ok resp) ∷ log) (resolve w).0 (resolve w).1

  answered :
      (url : Text) (static_headers : Header) (auth : Option Header) (msg : Text) (room : Option ℕ)
      (req : Request) (r : Result Text Response) (log : List Entry) (w : W)
      → Agrees (
          Http.first_response
            (logging do_request)
            (logging_resolver resolve_auth)
            (transport_of url static_headers auth)
            msg
            room
            ((requested req r ∷ log, w), r))
  unfolding Http.first_response
  answered url static_headers auth msg room req (err e) log w =
      unfold Http.fail last_is_fallback result_falls_back falls_back as_http_status in refl
  answered url static_headers (some h) msg room req (ok resp) log w =
      delivered url static_headers (some h) msg room req resp log w
        (unfold should_retry_with_auth in refl)
  answered url static_headers none msg room req (ok resp) log w =
      elim (Bool-cases (should_retry_with_auth none resp.status)) [
        | inr done ↦ delivered url static_headers none msg room req resp log w done
        | inl again ↦ rw again (rejected resolve_auth url static_headers msg room req resp log w)
      ]

  pub send-Agrees :
      (t : Http) (msg : Text) (room : Option ℕ) (log : List Entry) (w : W)
      → Agrees (Http.send (logging do_request) (logging_resolver resolve_auth) t msg room (log, w))
  unfolding Http.send logging
  send-Agrees t msg room log w =
      let req = Http.post_request t msg in
      answered t.base_url t.static_headers t.cached_auth msg room req (do_request req w).1 log
        (do_request req w).0
