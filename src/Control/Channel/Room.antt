-- ===== src/Control/Channel/Room.antt =====
-- How full the event channel gets (control_reader.go), and its reserved slots.
use gotmucks.Base.{
  ℕ, ◌+◌, ◌<◌, ◌≤◌, List, [], ◌∷◌, ◌≡◌, refl, arith, length, length-append, length-drop,
}
use gotmucks.Control.{Event, events_dropped}
use gotmucks.Control.Channel.{
  Channel, new_channel, receive, flush_drops, emit_reserved, Op, emits, receives, step, run, push,
  count_drop,
}
use gotmucks.Control.Channel.Cases.{emit_rule}

-- The slot of the terminal event is free, and the buffer is the one asked for.
pub record Inv (n : ℕ) (ch : Channel) : Type 0 where
  pub room : length ch.items ≤ ch.buffer + 1
  pub size : ch.buffer ≡ n

module _ (n : ℕ) where
  receive-Inv : (k : ℕ) (ch : Channel) → Inv n ch → Inv n (receive k ch)
  unfolding receive
  receive-Inv k ch v = record {
    room = omega (arith, length-drop k ch.items, v.room);
    size = v.size;
  }

  flush_drops-Inv : (ch : Channel) → Inv n ch → Inv n (flush_drops ch)
  unfolding flush_drops
  flush_drops-Inv ch v =
      ground (arith, length-append ch.items (events_dropped ch.pending_drops ∷ []))

  push-Inv :
      (ev : Event) (ch : Channel) → length ch.items < ch.buffer → Inv n ch → Inv n (push ch ev)
  push-Inv ev ch h v = ground (arith, length-append ch.items (ev ∷ []))

  count_drop-Inv : (ch : Channel) → Inv n ch → Inv n (count_drop ch)
  count_drop-Inv ch v = record { room = v.room; size = v.size }

  step-Inv : (ch : Channel) (op : Op) → Inv n ch → Inv n (step ch op)
  unfolding step
  step-Inv ch (receives k) v = receive-Inv k ch v
  step-Inv ch (emits j k ev) v =
      emit_rule (Inv n) (Inv n) ev flush_drops-Inv flush_drops-Inv receive-Inv receive-Inv
        (push-Inv ev) count_drop-Inv j k ch v

  run-Inv : (ops : List Op) (ch : Channel) → Inv n ch → Inv n (run ch ops)
  unfolding run
  run-Inv [] ch v = v
  run-Inv (op ∷ ops) ch v = run-Inv ops (step ch op) (step-Inv ch op v)

-- Whatever was emitted and received before, the channel holds at most one event more than the
-- buffer asked for, so the terminal event is sent and nothing is counted as lost for it.
pub emit_reserved_fits :
    (n : ℕ) (ops : List Op) (ev : Event)
    → let ch = run (new_channel n) ops in
      (emit_reserved ch ev ≡ push ch ev) × (length ch.items ≤ n + 1)
unfolding emit_reserved
emit_reserved_fits n ops ev =
    let v = run-Inv n ops (new_channel n) (record { room = omega arith; size = refl }) in
    (ground (arith, v), omega (arith, v.room, v.size))
