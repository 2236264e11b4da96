-- ===== src/Control/Channel/Cases.antt =====
-- A rule for showing that `emit` keeps a property of the channel (control_reader.go).
use gotmucks.Base.{ℕ, ◌<◌, ◌≡◌, true, arith, ltb, length, Bool-cases, inl, inr, ltb→lt, ltb}
use gotmucks.Control.{Event}
use gotmucks.Control.Channel.{Channel, receive, flush_drops, emit, push, count_drop, has_room}

-- `P` holds before the event is sent or counted, and `Q` after.
pub emit_rule {ℓ} :
    (P Q : Channel → Type ℓ) (ev : Event)
    → ((ch : Channel) → P ch → P (flush_drops ch))
    → ((ch : Channel) → Q ch → Q (flush_drops ch))
    → ((k : ℕ) (ch : Channel) → P ch → P (receive k ch))
    → ((k : ℕ) (ch : Channel) → Q ch → Q (receive k ch))
    → ((ch : Channel) → length ch.items < ch.buffer → P ch → Q (push ch ev))
    → ((ch : Channel) → P ch → Q (count_drop ch))
    → (j k : ℕ) (ch : Channel) → P ch
    → Q (emit j k ch ev)
unfolding emit
emit_rule P Q ev pf qf pr qr pushes counts j k ch p =
    let flushed = receive j (flush_drops ch) in
    let before : P flushed = pr j _ (pf ch p) in
    let lost : Q (flush_drops (receive k (count_drop flushed))) =
      qf _ (qr k _ (counts flushed before)) in
    elim (Bool-cases (ltb (length flushed.items) flushed.buffer)) [
      | inl room ↦
          let lt = ltb→lt (length flushed.items) flushed.buffer room in
          let fits : has_room flushed ≡ true = ground arith in
          rw (room, fits) (pushes flushed lt before)
      | inr full ↦ rw full lost
    ]
