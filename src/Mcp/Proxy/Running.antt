-- ===== src/Mcp/Proxy/Running.antt =====
-- RunProxy of internal/mcp/proxy.go: the headers that are resolved on demand, and the transport behind
-- the loop.
--
-- What time and the scheduler bring is an argument: for each call, how long its context lasts, and whether
-- the request for the stream of notifications, which Connect leaves to a goroutine, goes out by then.
-- strconv.Quote is an argument as well.
use locksmith.Common.{
  ℕ, Bool, true, false, List, [], ◌∷◌, ◌++◌, Option, none, some, Result, ok, err, if◌then◌else◌,
}
use locksmith.Common.Text.{Text, codes}
use locksmith.Mcp.Secrets.{
  SecretRef, RefError, empty_reference, unclosed_reference, no_colon, empty_alias, unknown_field,
  incomplete, unclosed, invalid, resolving, resolve_template,
}
use locksmith.Mcp.Transport.{Header, set_header, Request, Response, falling_back}
use locksmith.Mcp.Transport.Http
use locksmith.Mcp.Transport.Http.{Http, After}
use locksmith.Mcp.Transport.Sse.{Wait}
use locksmith.Mcp.Transport.Choice
use locksmith.Mcp.Transport.Choice.{Transport, new_transport, streaming}
use locksmith.Mcp.Proxy.{Input, run_loop, HeaderMapping, split_headers}

pub record ProxyConfig : Type 0 where
  pub url : Text
  pub transport : Text
  pub headers : List HeaderMapping

-- An error of setup or of Send.
pub data Error : Type 0 where
  unknown_transport : Text → Error
  connecting : Text → locksmith.Mcp.Transport.Error → Error
  transport_failed : locksmith.Mcp.Transport.Error → Error

module _ (quote : Text → Text) where
  unfoldable pub ref_error_text : RefError → Text
  ref_error_text empty_reference = codes "secret reference cannot be empty"
  ref_error_text (unclosed_reference s) = codes "unclosed { in reference " ++ quote s
  ref_error_text (no_colon field) =
      codes "invalid reference field " ++ (quote field ++ codes ": expected key:value")
  ref_error_text empty_alias = codes "key alias cannot be empty"
  ref_error_text (unknown_field k) = codes "unknown reference field " ++ quote k
  ref_error_text incomplete = codes "vault reference requires both 'vault' and 'path' fields"

  unfoldable pub template_error_text : locksmith.Mcp.Secrets.Error → Text
  template_error_text (unclosed tmpl) = codes "unclosed { in template " ++ quote tmpl
  template_error_text (invalid tmpl e) =
      codes "invalid reference in " ++ (quote tmpl ++ (codes ": " ++ ref_error_text e))
  template_error_text (resolving tmpl e) =
      codes "resolving reference in " ++ (quote tmpl ++ (codes ": " ++ e))

  module _ {W : Type 0} (fetch : SecretRef → W → W × Result Text Text) where
    -- One round of the loop of buildAuthResolver; ResolveTemplate never runs out of fuel.
    unfoldable pub add_resolved :
        HeaderMapping
        → (Header → W → W × Result Text Header)
        → Header
        → W × Option (Result locksmith.Mcp.Secrets.Error Text)
        → W × Result Text Header
    add_resolved h next headers (w, none) = (w, err [])
    add_resolved h next headers (w, some (err e)) =
        (w, err (codes "resolving header " ++ (h.name ++ (codes ": " ++ template_error_text e))))
    add_resolved h next headers (w, some (ok value)) = next (set_header h.name value headers) w

    -- The closure of buildAuthResolver; `headers` are those so far.
    unfoldable pub resolve_headers : List HeaderMapping → Header → W → W × Result Text Header
    resolve_headers [] headers w = (w, ok headers)
    resolve_headers (h ∷ templates) headers w =
        add_resolved h (resolve_headers templates) headers (resolve_template fetch h.template w)

    -- buildAuthResolver
    unfoldable pub build_auth_resolver : List HeaderMapping → Option (W → W × Result Text Header)
    build_auth_resolver [] = none
    build_auth_resolver (h ∷ templates) = some (resolve_headers (h ∷ templates) [])

-- What a call meets. A stream that goes out is forwarded as far as it says.
pub record Moment : Type 0 where
  pub room : Option ℕ
  pub wait : Wait
  pub stream : Option (Option ℕ)

-- The world outside, and what has been put on the channel of messages from the server.
pub record World (W : Type 0) : Type 0 where
  pub outside : W
  pub put : List Text

-- The transport, and whether the request for its stream is still to go out.
pub record Running : Type 0 where
  pub transport : Transport
  pub waiting : Bool

-- A fallback cancels a stream that is still to be asked for, also one that fails.
unfoldable pub still_waiting : Result locksmith.Mcp.Transport.Error (Unit {0}) → Bool → Bool
still_waiting (err (falling_back e)) waiting = false
still_waiting _ waiting = waiting

module _ {W : Type 0} where
  -- The world after a call of a transport.
  unfoldable pub after_call : List Text → After Transport W → World W
  after_call put a = record { outside = a.world; put = put ++ a.messages }

  unfoldable pub connected : Text → List Text → After Transport W → World W × Result Error Running
  connected url put a = elim a.result [
    | err e ↦ (after_call put a, err (connecting url e))
    | ok _ ↦ (after_call put a, ok (record { transport = a.transport; waiting = true }))
  ]

  unfoldable pub sent_message :
      Bool → List Text → After Transport W → World W × Running × Result Error (Unit {0})
  sent_message waiting put a = (
    after_call put a,
    record { transport = a.transport; waiting = still_waiting a.result waiting },
    elim a.result [ ok _ ↦ ok tt | err e ↦ err (transport_failed e) ],
  )

module _ {W : Type 0} (do_request : Request → W → W × Result Text Response)
    (resolve_reference : Text → Text → Result Text Text) (moment : W → Moment) where
  module _ (resolve_auth : Option (W → W × Result Text Header)) where
    -- The request of runGetStream.
    unfoldable pub run_stream : Option ℕ → Option Http → Transport → World W → Running × World W
    run_stream room none t w = (record { transport = t; waiting = false }, w)
    run_stream room (some h) t w =
        let (outside, messages) = Http.run_get_stream do_request resolve_auth h room w.outside in
        (
          record { transport = t; waiting = false },
          record { outside = outside; put = w.put ++ messages },
        )

    -- The goroutine of the stream, if it has not run yet and runs now.
    unfoldable pub run_waiting : Option (Option ℕ) → Running → World W → Running × World W
    run_waiting none c w = (c, w)
    run_waiting (some room) c w =
        if c.waiting then run_stream room (streaming c.transport) c.transport w else (c, w)

    -- The second half of setup, which RunProxyWithTransport has as well.
    unfoldable pub connect_transport : Text → Transport → World W → World W × Result Error Running
    connect_transport url t w = connected url w.put (
        Choice.connect do_request resolve_auth resolve_reference t (moment w.outside).wait
          w.outside)

    -- setup
    unfoldable pub setup_proxy : ProxyConfig → Header → World W → World W × Result Error Running
    setup_proxy cfg static_headers w = elim (new_transport cfg.url static_headers cfg.transport) [
      | err e ↦ (w, err (unknown_transport e))
      | ok t ↦ connect_transport cfg.url t w
    ]

    -- sendClientMessage
    unfoldable pub send_message :
        Running → Text → World W → World W × Running × Result Error (Unit {0})
    send_message c msg w =
        let m = moment w.outside in
        let (c', w') = run_waiting m.stream c w in
        sent_message c'.waiting w'.put (
          Choice.send do_request resolve_auth resolve_reference c'.transport msg m.room m.wait
            w'.outside)

    -- The stream may go out before Close cancels it; Close itself changes nothing outside.
    unfoldable pub close_transport : Running → World W → World W
    close_transport c w = (run_waiting (moment w.outside).stream c w).1

    -- The loop of RunProxy, for its static headers and its resolver.
    unfoldable pub serve :
        ProxyConfig
        → Header
        → Input
        → World W
        → World W × Result (locksmith.Mcp.Proxy.Error Error) (Unit {0})
    serve cfg static_headers input w =
        run_loop (setup_proxy cfg static_headers) send_message close_transport input w

  -- RunProxy
  unfoldable pub run_proxy :
      (Text → Text)
      → (SecretRef → W → W × Result Text Text)
      → ProxyConfig
      → Input
      → World W
      → World W × Result (locksmith.Mcp.Proxy.Error Error) (Unit {0})
  run_proxy quote fetch cfg input w =
      let (static_headers, templates) = split_headers cfg.headers [] in
      serve (build_auth_resolver quote fetch templates) cfg static_headers input w

  -- RunProxyWithTransport, on a transport that has been made
  unfoldable pub run_proxy_with_transport :
      Option (W → W × Result Text Header)
      → ProxyConfig
      → Transport
      → Input
      → World W
      → World W × Result (locksmith.Mcp.Proxy.Error Error) (Unit {0})
  run_proxy_with_transport resolve_auth cfg t input w =
      run_loop (connect_transport resolve_auth cfg.url t) (send_message resolve_auth)
        (close_transport resolve_auth) input w
