-- ===== src/Mcp/Proxy/Forwarding/Stopping.antt =====
-- That forwardServerMessages of internal/mcp/proxy.go stops.
use locksmith.Common.{
  ℕ, suc, zero, ◌≤◌, ◌<◌, ◌≡◌, ◌⊎◌, refl, true, inl, inr, List, [], ◌∷◌, arith, length,
}
use locksmith.Common.Text.{Text}
use locksmith.Mcp.Proxy.Forwarding.{
  Phase, selecting, draining, stopped, Forwarder, write_one, Own, forwards, sees_closed, sees_done,
  drains, finds_empty,
}

-- The steps that are left once `done` is closed.
unfoldable pub steps_left : Phase → List Text → ℕ
steps_left selecting channel = suc (suc (length channel))
steps_left draining channel = suc (length channel)
steps_left stopped channel = 0

pub data OwnRun : ℕ → Forwarder → Forwarder → Type 0 where
  no_step : {s : Forwarder} → OwnRun zero s s
  one_more : {n : ℕ} {s t u : Forwarder} → Own s t → OwnRun n t u → OwnRun (suc n) s u

abbrev left_of : Forwarder → ℕ
left_of s = steps_left s.phase s.channel

Own-lt : (s s' : Forwarder) → Own s s' → left_of s' < left_of s
unfolding steps_left
Own-lt s _ (forwards m rest p e) = unfold write_one in rw (p, e) (omega arith)
Own-lt s _ (sees_closed p e c) = rw p (omega arith)
Own-lt s _ (sees_done p d) = rw p (omega arith)
Own-lt s _ (drains m rest p e) = unfold write_one in rw (p, e) (omega arith)
Own-lt s _ (finds_empty p e) = rw p (omega arith)

Own-done : (s s' : Forwarder) → Own s s' → s.done ≡ true → s'.done ≡ true
Own-done s _ (forwards m rest p e) d = unfold write_one in d
Own-done s _ (sees_closed p e c) d = d
Own-done s _ (sees_done p e) d = d
Own-done s _ (drains m rest p e) d = unfold write_one in d
Own-done s _ (finds_empty p e) d = d

channel-cases : (c : List Text) → (c ≡ []) ⊎ ((m : Text) × (rest : List Text) × (c ≡ m ∷ rest))
channel-cases [] = inl refl
channel-cases (m ∷ rest) = inr (m, rest, refl)

phase-cases : (p : Phase) → (p ≡ selecting) ⊎ ((p ≡ draining) ⊎ (p ≡ stopped))
phase-cases selecting = inl refl
phase-cases draining = inr (inl refl)
phase-cases stopped = inr (inr refl)

-- The goroutine has stopped or can go on.
abbrev pub Goes : Forwarder → Type 0
Goes s = (s.phase ≡ stopped) ⊎ ((u : Forwarder) × Own s u)

goes : (s : Forwarder) → s.done ≡ true → Goes s
goes s d = elim (phase-cases s.phase) [
  | inl p ↦ inr (record s { phase = draining }, sees_done p d)
  | inr (inr p) ↦ inl p
  | inr (inl p) ↦ elim (channel-cases s.channel) [
    | inl e ↦ inr (record s { phase = stopped }, finds_empty p e)
    | inr (m, rest, e) ↦ inr (write_one m rest s, drains m rest p e)
  ]
]

-- Once `done` is closed, and while nothing is put on the channel, the goroutine makes at most two steps
-- more than there are messages in it, in whatever way the select chooses, and before it has stopped it
-- always has a step to make.
pub OwnRun-stops :
    (n : ℕ) (s s' : Forwarder)
    → OwnRun n s s'
    → s.done ≡ true
    → (n ≤ steps_left s.phase s.channel) × Goes s'
OwnRun-stops zero s _ no_step d = (omega arith, goes s d)
OwnRun-stops (suc n) s u (one_more {t = t} own run) d =
    let (below, on) = OwnRun-stops n t u run (Own-done s t own d) in
    (omega (arith, below, Own-lt s t own), on)
