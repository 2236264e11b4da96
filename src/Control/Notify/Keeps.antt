-- ===== src/Control/Notify/Keeps.antt =====
-- What `handleNotification` does to the queue and the blocks (control_reader.go).
use gotmucks.Base.{Bool, true, Bytes, ◌≡◌, ◌≢◌, refl, arith, Option, none, some}
use gotmucks.Base.Int.{ℤ}
use gotmucks.Ids.{PaneId}
use gotmucks.Ctlparse.{Line}
use gotmucks.Ctlparse.Args.{Output, parse_output, parse_extended_output}
use gotmucks.Control.{Conn}
use gotmucks.Control.Taps.{deliver_output}
use gotmucks.Control.Notify.{Case, deliver, run_case}
use gotmucks.Control.Notify.{output_case, extended_output_case, exit_case}

-- What only commands, blocks and the end of the connection change.
pub record Keeps (before after : Conn) : Type 0 where
  pub queue : after.queue ≡ before.queue
  pub current : after.current ≡ before.current
  pub settled : after.settled ≡ before.settled
  pub next_ticket : after.next_ticket ≡ before.next_ticket
  pub closed : after.closed ≡ before.closed
  pub done : after.done ≡ before.done
  pub started : after.started ≡ before.started
  pub saw_first_line : after.saw_first_line ≡ before.saw_first_line

deliver_output-Keeps :
    (cc : Conn) (id : PaneId) (bytes : Bytes) (extended : Bool) (age : ℤ)
    → Keeps cc (deliver_output cc id bytes extended age)
unfolding deliver_output
deliver_output-Keeps cc id bytes extended age = ground arith

deliver-Keeps : (cc : Conn) (cl : Line) (o : Option Output) → Keeps cc (deliver cc cl o)
unfolding deliver
deliver-Keeps cc cl none = ground arith
deliver-Keeps cc cl (some o) = deliver_output-Keeps cc o.pane _ o.extended _

-- Whatever case of a notification runs, the queue, the open block, the commands woken and the flags
-- of the connection's start and end stay as they are, and every case but that of %exit lets the
-- reader carry on.
pub run_case-Keeps :
    (c : Case) (cc : Conn) (cl : Line)
    → Keeps cc (run_case c cc cl).0 × (c ≢ exit_case → (run_case c cc cl).1 ≡ true)
unfolding run_case
run_case-Keeps output_case cc cl = (deliver-Keeps cc cl (parse_output cl.args), λ _. refl)
run_case-Keeps extended_output_case cc cl =
    (deliver-Keeps cc cl (parse_extended_output cl.args), λ _. refl)
run_case-Keeps exit_case cc cl = (ground arith, λ n. absurd (n refl))
run_case-Keeps _ cc cl = (ground arith, λ _. refl)
