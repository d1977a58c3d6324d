-- ===== src/Mcp/Secrets/Refreshing.antt =====
-- How often Fetch of internal/mcp/secrets.go asks the daemon and renews the session.
use locksmith.Common.{
  ℕ, ◌+◌, ◌≤◌, ◌≡◌, refl, true, inl, inr, some, Result, ok, err, arith, if◌then◌else◌, Bool-cases,
  Result-cases,
}
use locksmith.Common.Text.{Text, text_eq, text_eq_iff}
use locksmith.Mcp.Secrets.{SecretRef, is_session_expired_error, ask_again, renew, fetch_secret}

module _ {W : Type 0} (ask : Text → SecretRef → W → W × Result Text Text) where
  -- Two counters in the world: a request moves the first by one, a renewal the second.
  pub record IsCounted (requests refreshes : W → ℕ) (refresh : W → W × Result Text Text)
      : Type 0 where
    pub request_moves :
        (sid : Text) (ref : SecretRef) (w : W)
        → (requests (ask sid ref w).0 ≡ requests w + 1)
          × (refreshes (ask sid ref w).0 ≡ refreshes w)
    pub refresh_moves :
        (w : W)
        → (requests (refresh w).0 ≡ requests w) × (refreshes (refresh w).0 ≡ refreshes w + 1)

  renew_bounded :
      (requests refreshes : W → ℕ) (refresh : W → W × Result Text Text) (ref : SecretRef)
      (sid now : Text) (w : W)
      → IsCounted requests refreshes refresh
      → (requests (renew ask refresh ref sid now w).1 ≤ requests w + 1)
        × (refreshes (renew ask refresh ref sid now w).1
            ≤ refreshes w + (if text_eq now sid then 1 else 0))
  unfolding renew ask_again
  renew_bounded requests refreshes refresh ref sid now w c = elim (Bool-cases (text_eq now sid)) [
    | inr other ↦ rw (other, renew) (ground (arith, c.request_moves now ref w))
    | inl same ↦ elim (Result-cases (refresh w).1) [
      | inr (x, failed) ↦ rw (same, renew) (rw failed (ground (arith, c.refresh_moves w)))
      | inl (new_sid, renewed) ↦
          rw (same, renew)
            (rw renewed
              (ground (arith, c.refresh_moves w, c.request_moves new_sid ref (refresh w).0)))
    ]
  ]

  -- `Fetch` asks the daemon at most twice and renews the session at most once, and not at all if
  -- another goroutine has set another session id during the first request.
  pub fetch_secret_bounded :
      (requests refreshes : W → ℕ) (refresh : W → W × Result Text Text) (ref : SecretRef)
      (sid : Text) (meanwhile : Text → Text) (w : W)
      → IsCounted requests refreshes refresh
      → (requests (fetch_secret ask (some refresh) ref sid meanwhile w).1 ≤ requests w + 2)
        × (refreshes (fetch_secret ask (some refresh) ref sid meanwhile w).1
            ≤ refreshes w + (if text_eq (meanwhile sid) sid then 1 else 0))
  unfolding fetch_secret
  fetch_secret_bounded requests refreshes refresh ref sid meanwhile w c =
      let first = c.request_moves sid ref w in
      elim (Result-cases (ask sid ref w).1) [
        | inl (secret, got) ↦ rw (got, fetch_secret) (ground (arith, first))
        | inr (e, failed) ↦ elim (Bool-cases (is_session_expired_error e)) [
          | inr other ↦ rw (failed, fetch_secret) (rw other (ground (arith, first)))
          | inl expired ↦
              rw (failed, fetch_secret)
                (rw expired (
                  ground (
                    arith,
                    first,
                    renew_bounded requests refreshes refresh ref sid (meanwhile sid)
                        (ask sid ref w).0 c,
                  )))
        ]
      ]

  -- When the daemon rejects the session id and no other goroutine has changed it, `Fetch` answers with
  -- what the daemon says to a second request under the renewed id, and keeps that id.
  pub fetch_secret_renews :
      (refresh : W → W × Result Text Text) (ref : SecretRef) (sid new_sid e : Text)
      (meanwhile : Text → Text) (w : W)
      → (ask sid ref w).1 ≡ err e
      → is_session_expired_error e ≡ true
      → meanwhile sid ≡ sid
      → (refresh (ask sid ref w).0).1 ≡ ok new_sid
      → fetch_secret ask (some refresh) ref sid meanwhile w
        ≡ ask_again ask ref new_sid (refresh (ask sid ref w).0).0
  unfolding fetch_secret renew
  fetch_secret_renews refresh ref sid new_sid e meanwhile w failed expired alone renewed =
      let same : text_eq (meanwhile sid) sid ≡ true = (text_eq_iff (meanwhile sid) sid).1 alone in
      rw (failed, fetch_secret) (rw expired (rw (same, renew) (rw renewed refl)))
