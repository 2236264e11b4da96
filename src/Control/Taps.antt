-- ===== src/Control/Taps.antt =====
-- The per-pane taps: `deliverOutput` of control_reader.go, and `Output`, `Untap` and
-- `DroppedOutput` of control.go. The map is an association list with one entry for a pane.
pub mod Map
pub mod Refine
pub mod Uses
pub mod Account
use gotmucks.Base.{
  ℕ, Bool, not, ◌+◌, ◌%◌, ◌^◌, List, [], ◌∷◌, ◌++◌, Bytes, Option, none, some, if◌then◌else◌, ltb,
  length, bytes_eq,
}
use gotmucks.Base.Int.{ℤ}
use gotmucks.Ids.{PaneId, valid_id, pane_sigil, pane, check_id, IdError}
use gotmucks.Control.{Conn, Tap, pane_output, output_dropped, emit}

unfoldable pub lookup_tap : PaneId → List (PaneId × Tap) → Option Tap
unfolding bytes_eq
lookup_tap id [] = none
lookup_tap id ((j, t) ∷ ts) = if bytes_eq j id then some t else lookup_tap id ts

-- Writes the tap of a pane, which has one.
unfoldable pub update_tap : PaneId → Tap → List (PaneId × Tap) → List (PaneId × Tap)
unfolding bytes_eq
update_tap id t [] = (id, t) ∷ []
update_tap id t ((j, u) ∷ ts) = if bytes_eq j id then (j, t) ∷ ts else (j, u) ∷ update_tap id t ts

unfoldable pub delete_tap : PaneId → List (PaneId × Tap) → List (PaneId × Tap)
unfolding bytes_eq
delete_tap id [] = []
delete_tap id ((j, u) ∷ ts) = if bytes_eq j id then ts else (j, u) ∷ delete_tap id ts

abbrev pub wrap64 : ℕ → ℕ
wrap64 n = n % 2 ^ 64

-- The send of `deliverOutput` to an open tap: the tap after it, and the drops to report.
unfoldable pub send_tap : Tap → Bytes → Tap × ℕ
send_tap t bytes =
    if ltb (length t.items) t.cap
    then (record t { items = t.items ++ bytes ∷ []; drops = 0 }, t.drops)
    else (record t { drops = wrap64 (t.drops + 1); total = wrap64 (t.total + 1) }, 0)

-- `deliverOutput` from the lookup on.
unfoldable pub deliver_tap : Conn → PaneId → Bytes → Option Tap → Conn
unfolding send_tap update_tap
deliver_tap cc id bytes none = cc
deliver_tap cc id bytes (some t) =
    let (t', recovered) = send_tap t bytes in
    let sent = record cc { taps = update_tap id t' cc.taps } in
    if t.closed
    then cc
    else if ltb 0 recovered
    then emit sent (output_dropped id recovered)
    else sent

unfoldable pub deliver_output : Conn → PaneId → Bytes → Bool → ℤ → Conn
unfolding deliver_tap lookup_tap
deliver_output cc id bytes extended age =
    deliver_tap (emit cc (pane_output id bytes extended age)) id bytes (lookup_tap id cc.taps)

-- `Output`: the connection, and an error where the pane's identifier is none. The channel that is
-- returned is the tap of the pane.
register_tap : Conn → PaneId → Option Tap → Conn
register_tap cc id (some t) = cc
register_tap cc id none = record cc {
  taps =
      cc.taps
      ++ (
        id,
        record { items = []; cap = cc.output_buffer; drops = 0; total = 0; closed = cc.closed },
      )
        ∷ [];
}

open_output : Conn → PaneId → Option IdError → Conn × Option IdError
unfolding register_tap
open_output cc id (some e) = (cc, some e)
open_output cc id none = (register_tap cc id (lookup_tap id cc.taps), none)

unfoldable pub output : Conn → PaneId → Conn × Option IdError
unfolding open_output check_id
output cc id = open_output cc id (check_id id pane_sigil pane)

-- `Untap`. The channel of a tap that leaves the map is closed; no state here holds it any longer.
unfoldable pub untap : Conn → PaneId → Conn
unfolding delete_tap
untap cc id =
    if not (valid_id id pane_sigil) then cc else record cc { taps = delete_tap id cc.taps }

total_of : Option Tap → ℕ
total_of none = 0
total_of (some t) = t.total

unfoldable pub dropped_output : Conn → PaneId → ℕ
unfolding total_of lookup_tap
dropped_output cc id = total_of (lookup_tap id cc.taps)
