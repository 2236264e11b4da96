-- ===== src/Control/Channel.antt =====
-- The event channel: `emit`, `emitReserved` and `flushDrops` of control_reader.go. The reader alone
-- sends, so between its test of the length and its send the channel only empties; consumers may
-- receive at any time, and `received` keeps what they got. Where a consumer can receive between two
-- looks at the channel within one call of `emit`, the call has a number that says how many events
-- are received there. The counters are 64 bits wide.
mod Cases
pub mod Account
pub mod Room
use gotmucks.Base.{
  ℕ, Bool, true, false, ◌+◌, ◌%◌, ◌^◌, List, [], ◌∷◌, ◌++◌, if◌then◌else◌, ltb, leb, ◌==◌, length,
  take, drop,
}
use gotmucks.Control.{Event, events_dropped}

-- `buffer` is what the caller asked for; the channel has two slots more.
pub record Channel : Type 0 where
  pub buffer : ℕ
  pub items : List Event
  pub pending_drops : ℕ
  pub total_drops : ℕ
  pub received : List Event

abbrev pub new_channel : ℕ → Channel
new_channel n = record { buffer = n; items = []; pending_drops = 0; total_drops = 0; received = [] }

-- A send that the `select` makes if there is room.
abbrev pub has_room : Channel → Bool
has_room ch = ltb (length ch.items) (ch.buffer + 2)

abbrev pub push : Channel → Event → Channel
push ch ev = record ch { items = ch.items ++ ev ∷ [] }

-- Consumers take the `k` oldest events, or all of them.
unfoldable pub receive : ℕ → Channel → Channel
receive k ch = record ch { items = drop k ch.items; received = ch.received ++ take k ch.items }

unfoldable pub flush_drops : Channel → Channel
flush_drops ch =
    let n = ch.pending_drops in
    let swapped = record ch { pending_drops = 0 } in
    let back = record swapped { pending_drops = (swapped.pending_drops + n) % 2 ^ 64 } in
    if n == 0
    then swapped
    else if leb (length ch.items) ch.buffer
    then (if has_room ch then push swapped (events_dropped n) else back)
    else back

abbrev pub count_drop : Channel → Channel
count_drop ch = record ch {
  total_drops = (ch.total_drops + 1) % 2 ^ 64;
  pending_drops = (ch.pending_drops + 1) % 2 ^ 64;
}

unfoldable pub emit : ℕ → ℕ → Channel → Event → Channel
unfolding flush_drops receive
emit j k ch ev =
    let flushed = receive j (flush_drops ch) in
    let dropped = flush_drops (receive k (count_drop flushed)) in
    if ltb (length flushed.items) flushed.buffer
    then (if has_room flushed then push flushed ev else dropped)
    else dropped

unfoldable pub emit_reserved : Channel → Event → Channel
emit_reserved ch ev =
    if has_room ch then push ch ev else record ch { total_drops = (ch.total_drops + 1) % 2 ^ 64 }

-- What happens to the channel before the connection ends.
pub data Op : Type 0 where
  emits : ℕ → ℕ → Event → Op
  receives : ℕ → Op

pub step : Channel → Op → Channel
unfolding emit receive
step ch (emits j k ev) = emit j k ch ev
step ch (receives k) = receive k ch

unfoldable pub run : Channel → List Op → Channel
unfolding step
run ch [] = ch
run ch (op ∷ ops) = run (step ch op) ops
