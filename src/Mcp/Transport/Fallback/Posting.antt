-- ===== src/Mcp/Transport/Fallback/Posting.antt =====
-- That Send of SSETransport, internal/mcp/transport_sse.go, posts its message first of all.
use mathlib.Core.List.{append_assoc}
use locksmith.Common.{
  ◌≡◌, ◌∙◌, ◌⊎◌, refl, sym, ap, inl, inr, true, false, List, [], ◌∷◌, ◌++◌, Option, none, some,
  Result, ok, err, Bool, ℕ, arith, Bool-cases,
}
use locksmith.Common.Text.{Text, is_empty}
use locksmith.Mcp.Transport.{
  Header, Request, Response, Error, post_method, should_retry_with_auth, store_auth, ensure_auth,
}
use locksmith.Mcp.Transport.Logged.{
  Entry, requested, resolved, Logged, logging, logging_once, logging_resolver,
}
use locksmith.Mcp.Transport.Http.{After}
use locksmith.Mcp.Transport.Sse
use locksmith.Mcp.Transport.Sse.{Sse}

-- After the entries of the first log the second goes on with a POST of the message to the address.
pub record IsPosted (msg url : Text) (log log' : List Entry) : Type 0 where
  pub request : Request
  pub answer : Result Text Response
  pub later : List Entry
  pub goes_on : log' ≡ later ++ (requested request answer ∷ log)
  pub is_post : request.method ≡ post_method
  pub to_url : request.url ≡ url
  pub is_body : request.body ≡ msg

module _ {W : Type 0} (do_request : Request → W → W × Result Text Response)
    (resolve_auth : Option (W → W × Result Text Header))
    (resolve_reference : Text → Text → Result Text Text) where
  abbrev Extends : List Entry → After Sse (Logged W) → Type 0
  Extends log a = (later : List Entry) × (a.world.0 ≡ later ++ log)

  status-Extends :
      (t : Sse) (log : List Entry) (w : W) (status : ℕ)
      → (Sse.check_status
          (logging do_request)
          (logging_resolver resolve_auth)
          resolve_reference
          t
          (log, w)
          status).world
        ≡ (log, w)
  unfolding Sse.check_status Sse.fail
  status-Extends t log w status = ground arith

  retry-Extends :
      (t : Sse) (log : List Entry) (w : W) (r : Result Text Response)
      → (Sse.retry_response
          (logging do_request)
          (logging_resolver resolve_auth)
          resolve_reference
          t
          ((log, w), r)).world
        ≡ (log, w)
  unfolding Sse.retry_response
  retry-Extends t log w (err e) = unfold Sse.fail in refl
  retry-Extends t log w (ok resp) = status-Extends t log w resp.status

  again-Extends :
      (t : Sse) (msg : Text) (status : ℕ) (auth : Option Header) (log : List Entry) (w : W)
      (r : Result Error Bool)
      → Extends log (
          Sse.retry_with_auth
            (logging do_request)
            (logging_resolver resolve_auth)
            resolve_reference
            t
            msg
            status
            (auth, (log, w), r))
  unfolding Sse.retry_with_auth Sse.fail logging
  again-Extends t msg status auth log w (err e) = ([], refl)
  again-Extends t msg status auth log w (ok false) = ([], refl)
  again-Extends t msg status auth log w (ok true) =
      let t' : Sse = record t { cached_auth = auth } in
      let req = Sse.message_request t' msg in
      (
        requested req (do_request req w).1 ∷ [],
        ap (λ x. x.0)
            (retry-Extends t' (requested req (do_request req w).1 ∷ log) (do_request req w).0
              (do_request req w).1),
      )

  stored-Extends :
      (t : Sse) (msg : Text) (status : ℕ) (log : List Entry) (w : W) (r : Result Text Header)
      → Extends log (
          Sse.retry_with_auth
            (logging do_request)
            (logging_resolver resolve_auth)
            resolve_reference
            t
            msg
            status
            (store_auth ((resolved r ∷ log, w), r)))
  unfolding store_auth
  stored-Extends t msg status log w (err e) =
      let (later, same) = again-Extends t msg status none (resolved (err e) ∷ log) w (err _) in
      (
        later ++ (resolved (err e) ∷ []),
        same ∙ sym (append_assoc later (resolved (err e) ∷ []) log),
      )
  stored-Extends t msg status log w (ok h) =
      let (later, same) = again-Extends t msg status (some h) (resolved (ok h) ∷ log) w (ok true) in
      (later ++ (resolved (ok h) ∷ []), same ∙ sym (append_assoc later (resolved (ok h) ∷ []) log))

  ensured-Extends :
      (resolver : Option (W → W × Result Text Header)) (t : Sse) (msg : Text) (status : ℕ)
      (auth : Option Header) (log : List Entry) (w : W)
      → Extends log (
          Sse.retry_with_auth
            (logging do_request)
            (logging_resolver resolve_auth)
            resolve_reference
            t
            msg
            status
            (ensure_auth (logging_resolver resolver) auth (log, w)))
  unfolding ensure_auth logging_resolver logging_once
  ensured-Extends none t msg status auth log w = again-Extends t msg status auth log w (ok false)
  ensured-Extends (some resolve) t msg status (some h) log w =
      again-Extends t msg status (some h) log w (ok true)
  ensured-Extends (some resolve) t msg status none log w =
      stored-Extends t msg status log (resolve w).0 (resolve w).1

  response-Extends :
      (t : Sse) (msg : Text) (log : List Entry) (w : W) (r : Result Text Response)
      → Extends log (
          Sse.first_response
            (logging do_request)
            (logging_resolver resolve_auth)
            resolve_reference
            t
            msg
            ((log, w), r))
  unfolding Sse.first_response
  response-Extends t msg log w (err e) = unfold Sse.fail in ([], refl)
  response-Extends t msg log w (ok resp) =
      elim (Bool-cases (should_retry_with_auth t.cached_auth resp.status)) [
        | inl again ↦ rw again (ensured-Extends resolve_auth t msg resp.status t.cached_auth log w)
        | inr done ↦ rw done ([], ap (λ x. x.0) (status-Extends t log w resp.status))
      ]

  pub send-IsPosted :
      (t : Sse) (msg : Text) (log : List Entry) (w : W)
      → (is_empty t.endpoint ≡ true)
        ⊎ IsPosted msg t.endpoint log
            (Sse.send
              (logging do_request)
              (logging_resolver resolve_auth)
              resolve_reference
              t
              msg
              (log, w)).world.0
  unfolding Sse.send Sse.message_request logging
  send-IsPosted t msg log w = elim (Bool-cases (is_empty t.endpoint)) [
    | inl nowhere ↦ inl nowhere
    | inr somewhere ↦
        let req = Sse.message_request t msg in
        let (later, same) =
          response-Extends t msg (requested req (do_request req w).1 ∷ log) (do_request req w).0
            (do_request req w).1 in
        inr (record {
          request = req;
          answer = (do_request req w).1;
          later = later;
          goes_on = rw somewhere same;
          is_post = refl;
          to_url = refl;
          is_body = refl;
        })
  ]
