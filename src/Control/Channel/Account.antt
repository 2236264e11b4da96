-- ===== src/Control/Channel/Account.antt =====
-- The accounts of the event channel (control_reader.go): what was passed to `emit`, what is received,
-- what is dropped and what is reported.
use gotmucks.Base.{
  ℕ, ◌+◌, ◌^◌, ◌<◌, Bool, true, false, List, [], ◌∷◌, ◌++◌, ◌≡◌, refl, sym, ap, ◌∙◌, arith, length,
  length-append, take, drop, take-append-drop, append_assoc, append-nil, All, if◌then◌else◌, ltb,
  ltb→lt, leb, ◌==◌, Bool-cases, inl, inr, ◌⊎◌, ◌%◌,
}
use gotmucks.Base.Kept.{Kept, done, Kept-concat, Kept-skip}
use gotmucks.Control.{Event, events_dropped}
use gotmucks.Control.Channel.{
  Channel, new_channel, receive, flush_drops, emit, Op, emits, receives, step, run, push,
  count_drop, has_room,
}
use gotmucks.Control.Channel.Cases.{emit_rule}

-- The losses that an event reports.
unfoldable pub reported : Event → ℕ
reported (events_dropped n) = n
reported _ = 0

unfoldable pub is_report : Event → Bool
is_report (events_dropped n) = true
is_report _ = false

abbrev pub sum_reported : List Event → ℕ
sum_reported [] = 0
sum_reported (e ∷ es) = reported e + sum_reported es

-- The events that are not reports of losses.
abbrev pub ordinary : List Event → List Event
ordinary [] = []
ordinary (e ∷ es) = if is_report e then ordinary es else e ∷ ordinary es

-- All that consumers have received or will receive.
abbrev pub history : Channel → List Event
history ch = ch.received ++ ch.items

sum_reported-concat :
    (es : List Event) (e : Event) → sum_reported (es ++ e ∷ []) ≡ sum_reported es + reported e
sum_reported-concat [] e = omega arith
sum_reported-concat (x ∷ es) e = omega (arith, sum_reported-concat es e)

ordinary-concat :
    (es : List Event) (e : Event)
    → ordinary (es ++ e ∷ []) ≡ (if is_report e then ordinary es else ordinary es ++ e ∷ [])
ordinary-concat [] e = refl
ordinary-concat (x ∷ es) e = ground (arith, ordinary-concat es e)

-- `emitted` are the events passed to `emit` so far.
pub record Inv (emitted : List Event) (ch : Channel) : Type 0 where
  pub in_order : Kept (ordinary (history ch)) emitted
  pub counted : length (ordinary (history ch)) + ch.total_drops ≡ length emitted
  pub told : sum_reported (history ch) + ch.pending_drops ≡ ch.total_drops
  pub small : length emitted < 2 ^ 64

receive-history : (k : ℕ) (ch : Channel) → history (receive k ch) ≡ history ch
unfolding receive
receive-history k ch =
    append_assoc ch.received (take k ch.items) (drop k ch.items)
    ∙ ap (λ t. ch.received ++ t) (take-append-drop k ch.items)

push-history : (ch : Channel) (ev : Event) → history (push ch ev) ≡ history ch ++ ev ∷ []
push-history ch ev = sym (append_assoc ch.received ch.items (ev ∷ []))

reported_plain : (ev : Event) → is_report ev ≡ false → reported ev ≡ 0
unfolding is_report reported
reported_plain (events_dropped n) h = absurd (cc h)
reported_plain _ h = refl

module _ (emitted : List Event) where
  receive-Inv : (k : ℕ) (ch : Channel) → Inv emitted ch → Inv emitted (receive k ch)
  receive-Inv k ch v =
      let same = receive-history k ch in
      record {
        in_order = rw same v.in_order;
        counted = rw same (unfold receive in v.counted);
        told = rw same (unfold receive in v.told);
        small = v.small;
      }

  -- A report is no ordinary event, and it reports what was pending.
  report-Inv :
      (ch : Channel)
      → Inv emitted ch
      → Inv emitted (push (record ch { pending_drops = 0 }) (events_dropped ch.pending_drops))
  unfolding reported is_report
  report-Inv ch v =
      let ev = events_dropped ch.pending_drops in
      let longer = push-history ch ev in
      let same = ordinary-concat (history ch) ev in
      record {
        in_order = rw (longer, same) v.in_order;
        counted = rw (longer, same) v.counted;
        told = rw (longer, sum_reported-concat) (omega (arith, v.told));
        small = v.small;
      }

  unchanged-Inv :
      (ch : Channel) (n : ℕ)
      → n ≡ ch.pending_drops
      → Inv emitted ch
      → Inv emitted (record ch { pending_drops = n })
  unchanged-Inv ch n e v = record {
    in_order = v.in_order;
    counted = v.counted;
    told = omega (arith, v.told);
    small = v.small;
  }

  flush_drops-Inv : (ch : Channel) → Inv emitted ch → Inv emitted (flush_drops ch)
  unfolding flush_drops
  flush_drops-Inv ch v =
      let n = ch.pending_drops in
      let bound : n < 2 ^ 64 = omega (arith, v.told, v.counted, v.small) in
      elim (Bool-cases (n == 0)) [
        | inl none_lost ↦ rw none_lost (unchanged-Inv ch 0 (ground arith) v)
        | inr some_lost ↦ elim (Bool-cases (leb (length ch.items) ch.buffer)) [
          | inl room ↦
              let fits : ltb (length ch.items) (ch.buffer + 2) ≡ true = ground arith in
              rw (some_lost, room, fits) (report-Inv ch v)
          | inr full ↦ rw (some_lost, full) (unchanged-Inv ch ((0 + n) % 2 ^ 64) (omega arith) v)
        ]
      ]

  count_drop-Inv :
      (ev : Event) (ch : Channel)
      → length (emitted ++ ev ∷ []) < 2 ^ 64
      → Inv emitted ch
      → Inv (emitted ++ ev ∷ []) (count_drop ch)
  count_drop-Inv ev ch small v =
      let more = length-append emitted (ev ∷ []) in
      record {
        in_order = Kept-skip ev v.in_order;
        counted = omega (arith, v.counted, more, small);
        told = omega (arith, v.told, v.counted, more, small);
        small = small;
      }

  push-Inv :
      (ev : Event) (ch : Channel)
      → is_report ev ≡ false
      → length (emitted ++ ev ∷ []) < 2 ^ 64
      → Inv emitted ch
      → Inv (emitted ++ ev ∷ []) (push ch ev)
  push-Inv ev ch plain small v =
      let longer = push-history ch ev in
      let same = ordinary-concat (history ch) ev in
      let more = length-append emitted (ev ∷ []) in
      record {
        in_order = rw (longer, same, plain) (Kept-concat ev v.in_order);
        counted =
            rw (longer, same, plain, length-append (ordinary (history ch)) (ev ∷ []), more)
              (omega (arith, v.counted));
        told = rw (longer, sum_reported-concat, reported_plain ev plain) (omega (arith, v.told));
        small = small;
      }

abbrev pub emitted_by : List Op → List Event
emitted_by [] = []
emitted_by (emits j k ev ∷ ops) = ev ∷ emitted_by ops
emitted_by (receives k ∷ ops) = emitted_by ops

-- Only `flushDrops` makes reports of losses.
abbrev pub IsPlain : List Event → Type 0
IsPlain = All (λ ev. is_report ev ≡ false)

run-Inv :
    (ops : List Op) (emitted : List Event) (ch : Channel)
    → IsPlain (emitted_by ops)
    → length (emitted ++ emitted_by ops) < 2 ^ 64
    → Inv emitted ch
    → Inv (emitted ++ emitted_by ops) (run ch ops)
unfolding run step
run-Inv [] emitted ch plain small v = rw append-nil v
run-Inv (receives k ∷ ops) emitted ch plain small v =
    run-Inv ops emitted (receive k ch) plain small (receive-Inv emitted k ch v)
run-Inv (emits j k ev ∷ ops) emitted ch plain small v =
    let regroup = append_assoc emitted (ev ∷ []) (emitted_by ops) in
    let all_small : length ((emitted ++ ev ∷ []) ++ emitted_by ops) < 2 ^ 64 = rw regroup small in
    let so_far : length (emitted ++ ev ∷ []) < 2 ^ 64 =
      omega (arith, length-append (emitted ++ ev ∷ []) (emitted_by ops), all_small) in
    rw regroup at (
      run-Inv ops (emitted ++ ev ∷ []) (step ch (emits j k ev)) plain.1 all_small (
        emit_rule (Inv emitted) (Inv (emitted ++ ev ∷ [])) ev (flush_drops-Inv emitted)
          (flush_drops-Inv _) (receive-Inv emitted) (receive-Inv _)
          (λ c _. push-Inv emitted ev c plain.0 so_far) (λ c. count_drop-Inv emitted ev c so_far) j
          k ch v))

-- For fewer than 2^64 emitted events, none of which is itself a loss report, and any interleaving
-- with consumers: what consumers get and the channel holds is what was emitted, in order, with some
-- left out; as many are left out as Dropped counts; and the losses reported in the stream and those
-- still to be reported add up to that count.
pub run_account :
    (n : ℕ) (ops : List Op)
    → IsPlain (emitted_by ops)
    → length (emitted_by ops) < 2 ^ 64
    → let ch = run (new_channel n) ops in
      Kept (ordinary (history ch)) (emitted_by ops)
      × (length (ordinary (history ch)) + ch.total_drops ≡ length (emitted_by ops))
      × (sum_reported (history ch) + ch.pending_drops ≡ ch.total_drops)
run_account n ops plain small =
    let start : Inv [] (new_channel n) = record {
      in_order = done;
      counted = omega arith;
      told = omega arith;
      small = omega arith;
    } in
    let v = run-Inv ops [] (new_channel n) plain small start in (v.in_order, v.counted, v.told)

IsTold : Channel → Type 0
IsTold ch = (ch.pending_drops ≡ 0) ⊎ (ch.buffer < length ch.items)

flush_drops-IsTold : (ch : Channel) → IsTold (flush_drops ch)
unfolding flush_drops IsTold
flush_drops-IsTold ch =
    ground (arith, length-append ch.items (events_dropped ch.pending_drops ∷ []))

push-IsTold :
    (ch : Channel) (ev : Event) → length ch.items < ch.buffer → IsTold ch → IsTold (push ch ev)
unfolding IsTold
push-IsTold ch ev h (inl e) = inl e
push-IsTold ch ev h (inr full) = absurd (omega arith)

-- After a call of emit with no consumer between its first loss report and its send, either no loss
-- is left unreported or the channel is fuller than the buffer asked for.
emit_told :
    (k : ℕ) (ch : Channel) (ev : Event)
    → ((emit 0 k ch ev).pending_drops ≡ 0)
      ⊎ ((emit 0 k ch ev).buffer < length (emit 0 k ch ev).items)
unfolding emit IsTold
emit_told k ch ev =
    let flushed = receive 0 (flush_drops ch) in
    let told : IsTold flushed = flush_drops-IsTold ch in
    let lost : IsTold (flush_drops (receive k (count_drop flushed))) =
      flush_drops-IsTold (receive k (count_drop flushed)) in
    elim (Bool-cases (ltb (length flushed.items) flushed.buffer)) [
      | inl room ↦
          let lt = ltb→lt (length flushed.items) flushed.buffer room in
          let fits : has_room flushed ≡ true = ground arith in
          rw (room, fits) (push-IsTold flushed ev lt told)
      | inr full ↦ rw full lost
    ]
