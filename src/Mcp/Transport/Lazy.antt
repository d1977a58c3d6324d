-- ===== src/Mcp/Transport/Lazy.antt =====
-- When the transports of internal/mcp resolve the headers for authentication, which touches the vault.
use locksmith.Common.{
  ℕ, ◌≤◌, ◌≡◌, ◌∙◌, refl, sym, subst, inl, inr, Bool, true, false, List, [], ◌∷◌, Option, none,
  some, Result, ok, err, arith, Bool-cases,
}
use locksmith.Common.Text.{Text, codes, text_eq, contains_byte, to_lower_byte, to_upper_byte}
use locksmith.Common.Assoc.{lookup, insert}
use locksmith.Mcp.Transport.Headers.{expected_value, copied_value}
use locksmith.Mcp.Transport.{
  Header, set_header, canonical_key, is_token_byte, all_token_bytes, capitalise, Method, get_method,
  post_method, Request, Response, Error, is_auth_status, should_retry_with_auth, ensure_auth,
}
use locksmith.Mcp.Transport.Logged.{
  Entry, requested, Logged, logging, logging_resolver, IsLazy, begins, requests, resolutions,
  resolutions-le-one, ensure_auth-Ensured,
}
use locksmith.Mcp.Transport.Http
use locksmith.Mcp.Transport.Http.{Http, After}

-- The headers that StreamableHTTP gives every request of its own accord.
abbrev pub fixed_headers : Method → Header
fixed_headers get_method = (codes "Accept", codes "text/event-stream" ∷ []) ∷ []
fixed_headers post_method =
    (codes "Content-Type", codes "application/json" ∷ [])
    ∷ (codes "Accept", codes "application/json, text/event-stream" ∷ [])
    ∷ []

-- A connection over StreamableHTTP: its transport and its environment.
pub record Connection (W : Type 0) : Type 0 where
  pub transport : Http
  pub world : Logged W

pub data Op : Type 0 where
  sends : Text → Option ℕ → Op
  streams : Option ℕ → Op

should_retry :
    (auth : Option Header) (status : ℕ)
    → should_retry_with_auth auth status ≡ true
    → is_auth_status status ≡ true
unfolding should_retry_with_auth
should_retry none status h = h
should_retry (some a) status h = absurd (cc)

module _ {W : Type 0} (do_request : Request → W → W × Result Text Response)
    (resolve_auth : Option (W → W × Result Text Header)) where
  unfoldable pub run_op : Op → Connection W → Connection W
  run_op (sends msg room) c =
      let a =
        Http.send (logging do_request) (logging_resolver resolve_auth) c.transport msg room
          c.world in
      record { transport = a.transport; world = a.world }
  run_op (streams room) c = record c {
    world =
        (Http.run_get_stream (logging do_request) (logging_resolver resolve_auth) c.transport room
          c.world).0;
  }

  unfoldable pub run_ops : List Op → Connection W → Connection W
  run_ops [] c = c
  run_ops (op ∷ ops) c = run_ops ops (run_op op c)

  -- A connection whose log is as it may be.
  pub record Good (url : Text) (static_headers : Header) (t : Http) (w : Logged W) : Type 0 where
    pub at_url : t.base_url ≡ url
    pub with_static : t.static_headers ≡ static_headers
    pub lazy : IsLazy fixed_headers static_headers w.0 t.cached_auth

  module _ (url : Text) (static_headers : Header) where
    abbrev http : Option Header → Http
    http auth = record { base_url = url; static_headers = static_headers; cached_auth = auth }

    abbrev GoodAfter : After Http (Logged W) → Type 0
    GoodAfter a = Good url static_headers a.transport a.world

    posted :
        (msg : Text) (auth : Option Header) (k : Text)
        → lookup k (Http.post_request (http auth) msg).headers
          ≡ expected_value k auth static_headers
              (fixed_headers (Http.post_request (http auth) msg).method)
    unfolding Http.post_request Http.post_headers set_header canonical_key is_token_byte
        all_token_bytes capitalise to_lower_byte to_upper_byte contains_byte insert text_eq
    posted msg auth k = copied_value k static_headers auth (fixed_headers post_method)

    streamed :
        (auth : Option Header) (k : Text)
        → lookup k (Http.stream_request (http auth)).headers
          ≡ expected_value k auth static_headers
              (fixed_headers (Http.stream_request (http auth)).method)
    unfolding Http.stream_request Http.stream_headers set_header canonical_key is_token_byte
        all_token_bytes capitalise to_lower_byte to_upper_byte contains_byte insert text_eq
    streamed auth k = copied_value k static_headers auth (fixed_headers get_method)

    retried :
        (msg : Text) (room : Option ℕ) (auth : Option Header) (log : List Entry) (w : W)
        (r : Result Text Response)
        → IsLazy fixed_headers static_headers log auth
        → GoodAfter (
            Http.retry_response
              (logging do_request)
              (logging_resolver resolve_auth)
              (http auth)
              room
              ((log, w), r))
    unfolding Http.retry_response Http.fail Http.deliver
    retried msg room auth log w (ok resp) l = record { at_url = refl; with_static = refl; lazy = l }
    retried msg room auth log w (err e) l = record { at_url = refl; with_static = refl; lazy = l }

    ensured :
        (msg : Text) (room : Option ℕ) (status : ℕ) (auth auth' : Option Header) (log : List Entry)
        (w : W) (r : Result Error Bool)
        → IsLazy fixed_headers static_headers log auth'
        → GoodAfter (
            Http.retry_with_auth
              (logging do_request)
              (logging_resolver resolve_auth)
              (http auth)
              msg
              room
              status
              (auth', (log, w), r))
    unfolding Http.retry_with_auth Http.fail logging
    ensured msg room status auth auth' log w (err e) l = record {
      at_url = refl;
      with_static = refl;
      lazy = l;
    }
    ensured msg room status auth auth' log w (ok false) l = record {
      at_url = refl;
      with_static = refl;
      lazy = l;
    }
    ensured msg room status auth auth' log w (ok true) l =
        let req = Http.post_request (http auth') msg in
        retried msg room auth' (requested req (do_request req w).1 ∷ log) (do_request req w).0
          (do_request req w).1 (requests req (do_request req w).1 (posted msg auth') l)

    answered :
        (msg : Text) (room : Option ℕ) (auth : Option Header) (log : List Entry) (w : W)
        (req : Request) (r : Result Text Response)
        → IsLazy fixed_headers static_headers (requested req r ∷ log) auth
        → GoodAfter (
            Http.first_response
              (logging do_request)
              (logging_resolver resolve_auth)
              (http auth)
              msg
              room
              ((requested req r ∷ log, w), r))
    unfolding Http.first_response Http.fail Http.deliver
    answered msg room auth log w req (err e) l = record {
      at_url = refl;
      with_static = refl;
      lazy = l;
    }
    answered msg room auth log w req (ok resp) l =
        elim (Bool-cases (should_retry_with_auth auth resp.status)) [
          | inr done ↦ rw (done) (record { at_url = refl; with_static = refl; lazy = l })
          | inl again ↦ rw again (
              let e : Option Header × Logged W × Result Error Bool =
                ensure_auth (logging_resolver resolve_auth) auth
                  (requested req (ok resp) ∷ log, w) in
              ensured msg room resp.status auth e.0 e.1.0 e.1.1 e.2 (
                ensure_auth-Ensured fixed_headers static_headers resolve_auth auth log w req resp
                  (should_retry auth resp.status again) l))
        ]

    send-Good :
        (msg : Text) (room : Option ℕ) (auth : Option Header) (log : List Entry) (w : W)
        → IsLazy fixed_headers static_headers log auth
        → GoodAfter (
            Http.send
              (logging do_request)
              (logging_resolver resolve_auth)
              (http auth)
              msg
              room
              (log, w))
    unfolding Http.send logging
    send-Good msg room auth log w l =
        let req = Http.post_request (http auth) msg in
        answered msg room auth log (do_request req w).0 req (do_request req w).1
          (requests req (do_request req w).1 (posted msg auth) l)

    stream_world :
        (room : Option ℕ) (w : Logged W) (r : Result Text Response)
        → (Http.stream_response (logging do_request) (logging_resolver resolve_auth) room (w, r)).0
          ≡ w
    unfolding Http.stream_response
    stream_world room w (err e) = refl
    stream_world room w (ok resp) = ground arith

    stream-Good :
        (room : Option ℕ) (auth : Option Header) (log : List Entry) (w : W)
        → IsLazy fixed_headers static_headers log auth
        → Good url static_headers
            (http auth)
            (Http.run_get_stream
              (logging do_request)
              (logging_resolver resolve_auth)
              (http auth)
              room
              (log, w)).0
    unfolding Http.run_get_stream logging
    stream-Good room auth log w l =
        let req = Http.stream_request (http auth) in
        let r : Result Text Response = (do_request req w).1 in
        let l' = requests {auth = auth} req r (streamed auth) l in
        subst (Good url static_headers (http auth))
          (sym (stream_world room (requested req r ∷ log, (do_request req w).0) r))
          (record { at_url = refl; with_static = refl; lazy = l' })

  run_op-Good :
      (op : Op) (c : Connection W)
      → IsLazy fixed_headers c.transport.static_headers c.world.0 c.transport.cached_auth
      → Good c.transport.base_url c.transport.static_headers
          (run_op op c).transport
          (run_op op c).world
  unfolding run_op
  run_op-Good (sends msg room) c l =
      send-Good c.transport.base_url c.transport.static_headers msg room c.transport.cached_auth
        c.world.0 c.world.1 l
  run_op-Good (streams room) c l =
      stream-Good c.transport.base_url c.transport.static_headers room c.transport.cached_auth
        c.world.0 c.world.1 l

  run_ops-Good :
      (ops : List Op) (c : Connection W)
      → IsLazy fixed_headers c.transport.static_headers c.world.0 c.transport.cached_auth
      → Good c.transport.base_url c.transport.static_headers
          (run_ops ops c).transport
          (run_ops ops c).world
  unfolding run_ops
  run_ops-Good [] c l = record { at_url = refl; with_static = refl; lazy = l }
  run_ops-Good (op ∷ ops) c l =
      let g = run_op-Good op c l in
      let c' = run_op op c in
      let rest = run_ops-Good ops c' (
        subst (λ h. IsLazy fixed_headers h c'.world.0 c'.transport.cached_auth) (sym g.with_static)
          g.lazy) in
      record {
        at_url = rest.at_url ∙ g.at_url;
        with_static = rest.with_static ∙ g.with_static;
        lazy =
            subst
              (λ h.
                IsLazy fixed_headers h (run_ops ops c').world.0
                  (run_ops ops c').transport.cached_auth)
              g.with_static rest.lazy;
      }

  -- Over one connection by StreamableHTTP, in whatever order it sends messages and opens its stream of
  -- notifications and whatever the server and the vault answer: under each key a request carries what the
  -- resolver gave, once it has succeeded, else the static headers, else the fixed Accept and
  -- Content-Type, and under any other key nothing; the resolver is asked only right after a request that
  -- was answered by 401 or 403, and it succeeds at most once.
  pub run_ops-IsLazy :
      (base_url : Text) (static_headers : Header) (ops : List Op) (w : W)
      → let c : Connection W = run_ops ops (record {
        transport = record {
          base_url = base_url;
          static_headers = static_headers;
          cached_auth = none;
        };
        world = ([], w);
      }) in
        IsLazy fixed_headers static_headers c.world.0 c.transport.cached_auth
        × (resolutions c.world.0 ≤ 1)
  run_ops-IsLazy base_url static_headers ops w =
      let g =
        run_ops-Good ops
          (record {
            transport = record {
              base_url = base_url;
              static_headers = static_headers;
              cached_auth = none;
            };
            world = ([], w);
          })
          begins in
      (g.lazy, resolutions-le-one _ _ g.lazy)
