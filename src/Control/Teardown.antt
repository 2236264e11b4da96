-- ===== src/Control/Teardown.antt =====
-- `finishReader` of control_reader.go, up to the end of the process. The map of taps is read in the
-- order in which the taps were registered; the source reads it in any order.
use gotmucks.Base.{
  true, not, ◌||◌, ◌&&◌, List, [], ◌∷◌, ◌++◌, Bytes, Option, none, some, if◌then◌else◌, ltb,
}
use gotmucks.Strings.{trim_space}
use gotmucks.Ids.{PaneId}
use gotmucks.Control.{
  Conn, Pending, Tap, Event, ExitFault, read_fault, closed_saying, closed_unexpectedly, exited,
  output_dropped,
}

-- The error of a connection that closed with nothing to expect it, from what tmux wrote to stderr.
closed_fault : Bytes → ExitFault
closed_fault [] = closed_unexpectedly
closed_fault (c ∷ s) = closed_saying (c ∷ s)

ending_fault : Option Bytes → Bytes → ExitFault
unfolding closed_fault
ending_fault (some e) stderr = read_fault e
ending_fault none stderr = closed_fault (trim_space stderr)

-- The commands to wake: the queue, and the open block's.
unfoldable pub waiting : List Pending → Option Pending → List Pending
waiting queue none = queue
waiting queue (some p) = queue ++ p ∷ []

-- An orphan has no caller to wake.
unfoldable pub callers : List Pending → List Pending
callers [] = []
callers (p ∷ ps) = let rest = callers ps in if not p.orphan then p ∷ rest else rest

-- Every open tap is closed, and what it lost is taken from its counter to be reported.
unfoldable pub close_taps : List (PaneId × Tap) → List (PaneId × Tap)
close_taps [] = []
close_taps ((id, t) ∷ ts) =
    (id, (if t.closed then t else record t { closed = true; drops = 0 })) ∷ close_taps ts

unfoldable pub tap_losses : List (PaneId × Tap) → List Event
tap_losses [] = []
tap_losses ((id, t) ∷ ts) =
    let rest = tap_losses ts in
    if not t.closed && ltb 0 t.drops then output_dropped id t.drops ∷ rest else rest

-- The arguments are the read error, if there is one, and what tmux wrote to its standard error.
unfoldable pub finish_reader : Conn → Option Bytes → Bytes → Conn
unfolding ending_fault waiting callers close_taps tap_losses
finish_reader cc read_err stderr =
    let fault =
      if cc.saw_exit || cc.user_close then cc.exit_fault else some (ending_fault read_err stderr) in
    record cc {
      closed = true;
      exit_fault = fault;
      queue = [];
      current = none;
      settled = cc.settled ++ callers (waiting cc.queue cc.current);
      taps = close_taps cc.taps;
      out = cc.out ++ tap_losses cc.taps;
      reserved = cc.reserved ++ exited cc.exit_msg fault ∷ [];
      events_closed = true;
      started = true;
      done = true;
    }
