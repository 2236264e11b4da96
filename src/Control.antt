-- ===== src/Control.antt =====
-- control.go and control_events.go: the state of a control connection. The operations are in the
-- children: `Blocks`, `Taps`, `Notify`, `Reader` and `Teardown` for control_reader.go, `Queue` for
-- `Do` and what else touches the shared fields in control.go, `Channel` for the event channel.
--
-- A `*pending` is a record with a ticket, which stands for the pointer: `Do` gives out tickets in
-- the order in which it queues. A closed `done` channel is the entry of the command in `settled`,
-- with the fields that its caller reads then. `out` holds the events passed to `emit`, in order,
-- and `reserved` those passed to `emitReserved`; what becomes of them in the channel is in `Channel`.
pub mod Blocks
pub mod Taps
pub mod Notify
pub mod Reader
pub mod Queue
pub mod Teardown
pub mod Process
pub mod Channel
pub mod System
use gotmucks.Base.{ℕ, Bool, true, false, List, [], ◌∷◌, ◌++◌, Bytes, Option, none}
use gotmucks.Base.Int.{ℤ, pos}
use gotmucks.Ctlparse.{Kind}
use gotmucks.Ids.{SessionId, WindowId, PaneId}

-- Why a line was reported: the texts that the source makes for `ProtocolError.Reason`.
pub data Reason : Type 0 where
  bad_header : Kind → Reason
  stray_terminator : Reason
  stray_output : Reason
  bad_arguments : Bytes → Reason

-- What `Err` returns after the connection has ended; each wraps `ErrServerExited`.
pub data ExitFault : Type 0 where
  read_fault : Bytes → ExitFault
  closed_saying : Bytes → ExitFault
  closed_unexpectedly : ExitFault
  not_connected : ExitFault

pub data Event : Type 0 where
  pane_output : PaneId → Bytes → Bool → ℤ → Event
  pane_paused : PaneId → Event
  pane_continued : PaneId → Event
  pane_mode_changed : PaneId → Event
  sessions_changed : Event
  session_changed : SessionId → Bytes → Event
  session_renamed : SessionId → Bytes → Event
  session_window_changed : SessionId → WindowId → Event
  window_added : WindowId → Event
  window_closed : WindowId → Event
  window_renamed : WindowId → Bytes → Event
  window_pane_changed : WindowId → PaneId → Event
  layout_changed : WindowId → Bytes → Bytes → Bytes → Event
  subscription_changed : Bytes → SessionId → WindowId → PaneId → ℤ → Bytes → Event
  client_session_changed : Bytes → SessionId → Bytes → Event
  client_detached : Bytes → Event
  message : Bytes → Event
  config_error : Bytes → Event
  paste_buffer_changed : Bytes → Event
  paste_buffer_deleted : Bytes → Event
  exited : Bytes → Option ExitFault → Event
  unknown_notification : Bytes → Bytes → Event
  events_dropped : ℕ → Event
  output_dropped : PaneId → ℕ → Event
  protocol_error : Bytes → Reason → Event

-- `p.err`: a command that cannot be answered, with the protocol error that says why.
pub data Unanswerable : Type 0 where
  cannot_be_answered : Bytes → Bytes → Reason → Unanswerable

pub record Pending : Type 0 where
  pub ticket : ℕ
  pub cmd : Bytes
  pub number : ℤ
  pub lines : List Bytes
  pub flags : ℤ
  pub reply_time : ℤ
  pub failed : Bool
  pub answered : Bool
  pub orphan : Bool
  pub unnumbered : Bool
  pub fault : Option Unanswerable

-- `&pending{cmd: cmd}`.
abbrev pub new_pending : ℕ → Bytes → Pending
new_pending ticket cmd = record {
  ticket = ticket;
  cmd = cmd;
  number = pos 0;
  lines = [];
  flags = pos 0;
  reply_time = pos 0;
  failed = false;
  answered = false;
  orphan = false;
  unnumbered = false;
  fault = none;
}

-- A tap: what its channel holds, and its counters, which are 64 bits wide.
pub record Tap : Type 0 where
  pub items : List Bytes
  pub cap : ℕ
  pub drops : ℕ
  pub total : ℕ
  pub closed : Bool

pub record Conn : Type 0 where
  pub output_buffer : ℕ
  pub next_ticket : ℕ
  pub queue : List Pending
  pub current : Option Pending
  pub settled : List Pending
  pub taps : List (PaneId × Tap)
  pub closed : Bool
  pub user_close : Bool
  pub saw_exit : Bool
  pub attached : SessionId
  pub exit_fault : Option ExitFault
  pub exit_msg : Bytes
  pub started : Bool
  pub saw_first_line : Bool
  pub out : List Event
  pub reserved : List Event
  pub events_closed : Bool
  pub done : Bool

-- `newControlClient`, with the tap size that the configuration gives.
unfoldable pub new_control_client : ℕ → Conn
new_control_client output_buffer = record {
  output_buffer = output_buffer;
  next_ticket = 0;
  queue = [];
  current = none;
  settled = [];
  taps = [];
  closed = false;
  user_close = false;
  saw_exit = false;
  attached = [];
  exit_fault = none;
  exit_msg = [];
  started = false;
  saw_first_line = false;
  out = [];
  reserved = [];
  events_closed = false;
  done = false;
}

-- A call of `emit` by the reader.
abbrev pub emit : Conn → Event → Conn
emit cc ev = record cc { out = cc.out ++ ev ∷ [] }
