-- ===== src/Control/System/Once.antt =====
-- Where a queued command is, at any time and at the end (control.go, control_reader.go).
use gotmucks.Base.{ℕ, ◌+◌, ◌<◌, true, ◌≡◌, arith}
use gotmucks.Control.Blocks.Order.{tickets, bound}
use gotmucks.Control.System.{System, Reach}
use gotmucks.Control.System.Count.{count}
use gotmucks.Control.System.Invariant.{Reach-Inv}

-- At any reachable state, every command that was queued is woken, bound to the open block, still
-- queued, or withdrawn by its own caller, and it is in one of these places only, once.
pub held_once :
    (n : ℕ) (s : System) (t : ℕ)
    → Reach n s
    → t < s.conn.next_ticket
    → count t (tickets s.conn.settled)
        + (count t (bound s.conn.current) + count t (tickets s.conn.queue))
        + count t s.withdrawn
      ≡ 1
held_once n s t r h = ground (arith, (Reach-Inv r).once t)

-- Once the reader has ended, every command that was queued has been woken exactly once or was
-- withdrawn by its own caller, in whatever order lines, commands, withdrawals, taps, Close and the
-- end of the reader came.
pub woken_once :
    (n : ℕ) (s : System) (t : ℕ)
    → Reach n s
    → s.conn.done ≡ true
    → t < s.conn.next_ticket
    → count t (tickets s.conn.settled) + count t s.withdrawn ≡ 1
woken_once n s t r d h =
    let e = (Reach-Inv r).ended d in ground (arith, (Reach-Inv r).once t, e.0, e.1)
