-- ===== src/Control/Queue.antt =====
-- What `Do` does to the shared fields, in control.go: queueing, a write that fails, and the result
-- that it returns; and the other entry points that change the connection.
pub mod Outcome
use gotmucks.Base.{ℕ, Bool, true, false, suc, List, [], ◌∷◌, ◌++◌, Bytes, if◌then◌else◌, ◌==◌}
use gotmucks.Base.{Option, none, some, not, codes}
use gotmucks.Base.Int.{ℤ}
use gotmucks.Strings.{join}
use gotmucks.Control.{Conn, Pending, Unanswerable, ExitFault, new_pending}

-- The section under the locks: the command is queued unless the connection has ended.
unfoldable pub enqueue : Conn → Bytes → Conn × Bool
enqueue cc cmd = if cc.closed then (cc, false) else (
  record cc {
    next_ticket = suc cc.next_ticket;
    queue = cc.queue ++ (new_pending cc.next_ticket cmd) ∷ [];
  },
  true,
)

-- `Do` from `awaitStartup` to the queueing, where it does not wait: behind the barrier it queues
-- nothing.
unfoldable pub submit : Conn → Bytes → Conn × Bool
unfolding enqueue
submit cc cmd = if cc.started then enqueue cc cmd else (cc, false)

-- The loop of `unqueue`.
unfoldable pub remove_ticket : ℕ → List Pending → List Pending
remove_ticket t [] = []
remove_ticket t (p ∷ ps) = if p.ticket == t then ps else p ∷ remove_ticket t ps

unfoldable pub unqueue : Conn → ℕ → Conn
unfolding remove_ticket
unqueue cc t = record cc { queue = remove_ticket t cc.queue }

-- Why a connection answers no more commands; each but `err_closed` wraps `ErrServerExited`.
pub data TerminalError : Type 0 where
  exit_error : ExitFault → TerminalError
  exit_message : Bytes → TerminalError
  err_closed : TerminalError
  server_exited : TerminalError

abbrev without_fault : Bytes → Bool → TerminalError
without_fault (c ∷ s) user_close = exit_message (c ∷ s)
without_fault [] true = err_closed
without_fault [] false = server_exited

unfoldable pub terminal_err : Conn → TerminalError
terminal_err cc = elim cc.exit_fault [
  | some e ↦ exit_error e
  | none ↦ without_fault cc.exit_msg cc.user_close
]

-- `ReplyTime` is the number of seconds that the terminator gave.
pub record Reply : Type 0 where
  pub number : ℤ
  pub reply_time : ℤ
  pub flags : ℤ
  pub output : List Bytes

pub data DoError : Type 0 where
  unanswerable : Unanswerable → DoError
  ended : TerminalError → DoError
  -- a `ControlError`: the command, its number, and the body as the message
  control_error : Bytes → ℤ → Bytes → DoError

abbrev pub reply_of : Pending → Reply
reply_of p = record {
  number = p.number;
  reply_time = p.reply_time;
  flags = p.flags;
  output = p.lines;
}

-- What `Do` returns once its command has been woken; the source tests `p.err` first.
unfoldable pub do_result : Conn → Pending → Reply × Option DoError
do_result cc p = (
  reply_of p,
  elim p.fault [
    | some e ↦ some (unanswerable e)
    | none ↦
        if not p.answered
        then some (ended (terminal_err cc))
        else if p.failed
        then some (control_error p.cmd p.number (join (b'\n' ∷ []) p.lines))
        else none
  ],
)
