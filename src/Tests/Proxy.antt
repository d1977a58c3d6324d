-- ===== src/Tests/Proxy.antt =====
-- The proxy of internal/mcp at concrete inputs.
use locksmith.Common.{ℕ, suc, ◌≤◌, ◌≡◌, refl, List, [], ◌∷◌, ◌++◌, none, Result, ok, arith}
use locksmith.Common.Text.{Text, codes}
use locksmith.Mcp.Proxy.{Input, more, last, run_loop}
use locksmith.Mcp.Proxy.Loop.{messages_of, end_of, serve_all, run_loop-all}
use locksmith.Mcp.Proxy.Forwarding.{
  Forwarder, new_forwarder, Reachable, begins, steps, puts, shuts_down, sees_done, put_one,
  close_done, draining,
}
use locksmith.Mcp.Proxy.Forwarding.Ordering.{IsOrdered, Reachable-IsOrdered}
use locksmith.Mcp.Proxy.Forwarding.Stopping.{
  OwnRun, Goes, steps_left, no_step, one_more, OwnRun-stops,
}

-- A blank line, a message, and another without a line feed.
abbrev input : Input
input = more (13 ∷ 10 ∷ []) (more (codes "a" ++ (10 ∷ [])) (last (codes "b") none))

abbrev setup : List Text → List Text × Result Text ℕ
setup log = (log ++ (codes "setup" ∷ []), ok 0)

abbrev send : ℕ → Text → List Text → List Text × ℕ × Result Text (Unit {0})
send n msg log = (log ++ (msg ∷ []), suc n, ok tt)

abbrev close : ℕ → List Text → List Text
close n log = log ++ (codes "close" ∷ [])

run_loop-all_example :
    run_loop setup send close input []
    ≡ serve_all setup send close (messages_of input) (end_of input) []
run_loop-all_example = run_loop-all setup send close input []

-- A message is put, the shutdown begins, and the goroutine drains.
abbrev shut : Forwarder
shut = close_done (put_one (codes "m") new_forwarder)

shut-Reachable : Reachable 64 shut
unfolding put_one
shut-Reachable = steps (steps begins (puts (codes "m") refl (omega arith))) (shuts_down refl)

Reachable-IsOrdered_example : IsOrdered shut
Reachable-IsOrdered_example = Reachable-IsOrdered 64 shut shut-Reachable

shut_run : OwnRun 1 shut (record shut { phase = draining })
unfolding close_done put_one
shut_run = one_more (sees_done refl refl) no_step

OwnRun-stops_example :
    (1 ≤ steps_left shut.phase shut.channel) × Goes (record shut { phase = draining })
unfolding close_done put_one
OwnRun-stops_example = OwnRun-stops 1 shut (record shut { phase = draining }) shut_run refl
