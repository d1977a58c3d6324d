-- ===== src/Mcp/Proxy/Untouched.antt =====
-- That RunProxy of internal/mcp/proxy.go leaves the vault alone for a server that does not ask for
-- authentication.
pub mod Transports
use locksmith.Common.{
  ℕ, ◌≡◌, ◌∙◌, refl, ap, fun_ext, inl, inr, Bool, false, List, [], ◌∷◌, ◌++◌, Option, none, some,
  Result, ok, err, Bool-cases, Result-cases, if◌then◌else◌, ◌==◌, ◌||◌,
}
use locksmith.Common.Text.{Text, contains_byte}
use locksmith.Mcp.Secrets.{SecretRef}
use locksmith.Mcp.Transport.{
  Header, set_header, Request, Response, is_auth_status, should_retry_with_auth,
}
use locksmith.Mcp.Transport.Http
use locksmith.Mcp.Transport.Http.{Http, After}
use locksmith.Mcp.Transport.Sse
use locksmith.Mcp.Transport.Sse.{Sse, Wait, too_long, context_done, patient}
use locksmith.Mcp.Transport.Auto
use locksmith.Mcp.Transport.Auto.{Auto, Inner, http_inner, sse_inner, falls_back}
use locksmith.Mcp.Transport.Choice
use locksmith.Mcp.Transport.Choice.{
  Transport, over_http, over_sse, over_auto, as_transport, new_transport,
}
use locksmith.Mcp.Proxy.{Input, HeaderMapping, split_headers}
use locksmith.Mcp.Proxy.Running.{
  ProxyConfig, Moment, World, Running, connected, run_stream, run_waiting, connect_transport,
  setup_proxy, sent_message, send_message, close_transport, serve, run_proxy,
}
use locksmith.Mcp.Proxy.Untouched.Transports.{asks_for_auth, stream_same, connect_same, send_same}

-- The headers without those that have a reference in them.
unfoldable pub only_static : List HeaderMapping → List HeaderMapping
only_static [] = []
only_static (h ∷ hs) =
    let rest = only_static hs in if contains_byte b'{' h.template then rest else h ∷ rest

split_headers-only_static :
    (hs : List HeaderMapping) (static_headers : Header)
    → split_headers (only_static hs) static_headers ≡ ((split_headers hs static_headers).0, [])
unfolding split_headers only_static
split_headers-only_static [] static_headers = refl
split_headers-only_static (h ∷ hs) static_headers =
    elim (Bool-cases (contains_byte b'{' h.template)) [
      | inl templated ↦ rw templated (split_headers-only_static hs static_headers)
      | inr plain ↦
          rw (plain, split_headers)
            (rw plain (
              rw (split_headers-only_static hs (set_header h.name h.template static_headers)) refl))
    ]

module _ {W : Type 0} (do_request : Request → W → W × Result Text Response)
    (resolve_reference : Text → Text → Result Text Text) (moment : W → Moment)
    (r r' : Option (W → W × Result Text Header))
    (open_server : (req : Request) (w : W) → asks_for_auth (do_request req w).1 ≡ false) where
  run_stream_same :
      (room : Option ℕ) (h : Option Http) (t : Transport) (w : World W)
      → run_stream do_request resolve_reference moment r room h t w
        ≡ run_stream do_request resolve_reference moment r' room h t w
  unfolding run_stream
  run_stream_same room none t w = refl
  run_stream_same room (some h) t w =
      rw (stream_same do_request resolve_reference r r' open_server h room w.outside) refl

  waiting_same :
      (s : Option (Option ℕ)) (c : Running) (w : World W)
      → run_waiting do_request resolve_reference moment r s c w
        ≡ run_waiting do_request resolve_reference moment r' s c w
  unfolding run_waiting
  waiting_same none c w = refl
  waiting_same (some room) c w = rw (run_stream_same room _ c.transport w) refl

  transport_same :
      (url : Text) (t : Transport) (w : World W)
      → connect_transport do_request resolve_reference moment r url t w
        ≡ connect_transport do_request resolve_reference moment r' url t w
  unfolding connect_transport
  transport_same url t w = ap (connected url w.put) (
      connect_same do_request resolve_reference r r' open_server t (moment w.outside).wait
        w.outside)

  setup_same :
      (cfg : ProxyConfig) (static_headers : Header) (w : World W)
      → setup_proxy do_request resolve_reference moment r cfg static_headers w
        ≡ setup_proxy do_request resolve_reference moment r' cfg static_headers w
  unfolding setup_proxy
  setup_same cfg static_headers w =
      elim (Result-cases (new_transport cfg.url static_headers cfg.transport)) [
        | inl (t, made) ↦ rw (made, setup_proxy) (transport_same cfg.url t w)
        | inr (e, failed) ↦ rw (failed, setup_proxy) refl
      ]

  message_same :
      (c : Running) (msg : Text) (w : World W)
      → send_message do_request resolve_reference moment r c msg w
        ≡ send_message do_request resolve_reference moment r' c msg w
  unfolding send_message
  message_same c msg w =
      rw (waiting_same (moment w.outside).stream c w) (
        ap (sent_message _ _) (send_same do_request resolve_reference r r' open_server _ msg _ _ _))

  close_same :
      (c : Running) (w : World W)
      → close_transport do_request resolve_reference moment r c w
        ≡ close_transport do_request resolve_reference moment r' c w
  unfolding close_transport
  close_same c w = ap (λ p. p.1) (waiting_same (moment w.outside).stream c w)

  serve_same :
      (cfg : ProxyConfig) (static_headers : Header) (input : Input) (w : World W)
      → serve do_request resolve_reference moment r cfg static_headers input w
        ≡ serve do_request resolve_reference moment r' cfg static_headers input w
  unfolding serve
  serve_same cfg static_headers input w =
      rw
        (
          fun_ext (setup_same cfg static_headers),
          fun_ext (λ c. fun_ext (λ msg. fun_ext (message_same c msg))),
          fun_ext (λ c. fun_ext (close_same c)),
        )
        refl

module _ {W : Type 0} (do_request : Request → W → W × Result Text Response)
    (resolve_reference : Text → Text → Result Text Text) (moment : W → Moment)
    (quote : Text → Text) where
  -- If the server answers no request by 401 or 403, RunProxy does the same, over each transport and in
  -- every order of events, as with the headers that name secrets left out of its configuration. Then it
  -- has no resolver, so that the vault is asked for nothing.
  pub run_proxy-only_static :
      (fetch fetch' : SecretRef → W → W × Result Text Text)
      → ((req : Request) (w : W) → asks_for_auth (do_request req w).1 ≡ false)
      → (cfg : ProxyConfig) (input : Input) (w : World W)
      → run_proxy do_request resolve_reference moment quote fetch cfg input w
        ≡ run_proxy do_request resolve_reference moment quote fetch'
            (record cfg { headers = only_static cfg.headers })
            input
            w
  unfolding run_proxy serve setup_proxy
  run_proxy-only_static fetch fetch' open_server cfg input w =
      rw (split_headers-only_static cfg.headers []) (
        serve_same do_request resolve_reference moment _ _ open_server cfg
          (split_headers cfg.headers []).0 input w)
