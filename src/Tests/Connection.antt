-- ===== src/Tests/Connection.antt =====
-- The control connection and its event channel on concrete runs.
use gotmucks.Base.{
  true, false, ◌+◌, ◌<◌, ◌≤◌, List, [], ◌∷◌, ◌≡◌, ◌↔◌, inl, refl, ap, arith, codes, some, none,
  length, bytes_eq,
}
use gotmucks.Ctlparse.{
  plain, begin_kind, end_kind, classify, is_known_notification, mem_bytes, parse_block_args,
}
use gotmucks.Control.{sessions_changed, message, exited, Conn, new_pending, new_control_client}
use gotmucks.Control.Channel.{Op, emits, receives, new_channel, run, emit_reserved, push}
use gotmucks.Base.Kept.{Kept}
use gotmucks.Control.Channel.Account.{
  ordinary, history, emitted_by, sum_reported, is_report, IsPlain, run_account,
}
use gotmucks.Control.Channel.Room.{emit_reserved_fits}
use gotmucks.Control.Blocks.Order.{Orders, tickets, bound}
use gotmucks.Control.Notify.ValidIds.{IsSound}
use gotmucks.Control.Reader.{clean_line, handle_line, read_lines}
use gotmucks.Control.Blocks.{closes_block, unsolicited_block}
use gotmucks.Base.Int.{pos, eqb_ℤ}
use gotmucks.Strings.{cut, trim_suffix, fields, parse_int, is_digit, digits_from}
use gotmucks.Control.Reader.Isolation.{IsQuiet, open_block-IsQuiet}
use gotmucks.Control.Reader.Order.{handle_line-Orders}
use gotmucks.Control.Reader.ValidIds.{read_lines-IsSound}
use gotmucks.Control.Reader.Replies.{Block, IsReply, IsIdle, lines_of}
use gotmucks.Control.Reader.InOrder.{reply, served, replies_in_order}
use gotmucks.Control.Queue.{enqueue, do_result}
use gotmucks.Control.Reader.Startup.{
  IsOpening, submit_all, pending_from, partly_opened, all_opened, startup_in_order,
}
use gotmucks.Base.{◌++◌}
use gotmucks.Control.Reader.InOrder.{stream_lines}
use gotmucks.Strings.{has_prefix, trim_prefix}
use gotmucks.Control.Queue.Outcome.{reply_in, error_in, carried_out, do_result-carried_out}
use gotmucks.Control.Reader.Exit.{IsExit, handle_line_stops_iff}
use gotmucks.Control.{Pending}
use gotmucks.Control.Teardown.{finish_reader}
use gotmucks.Control.System.{System, Reach, here, next, start, queues, finishes}
use gotmucks.Control.System.Count.{count}
use gotmucks.Control.System.Once.{held_once, woken_once}

-- Three events for a channel of one, the second of which is lost.
abbrev crowded : List Op
crowded =
    emits 0 0 sessions_changed
    ∷ emits 0 0 (message (codes "a"))
    ∷ receives 2
    ∷ emits 0 0 (message (codes "b"))
    ∷ []

crowded-IsPlain : IsPlain (emitted_by crowded)
unfolding is_report
crowded-IsPlain = (refl, (refl, (refl, tt)))

run_account_example :
    Kept (ordinary (history (run (new_channel 1) crowded))) (emitted_by crowded)
    × (length (ordinary (history (run (new_channel 1) crowded)))
          + (run (new_channel 1) crowded).total_drops
        ≡ 3)
    × (sum_reported (history (run (new_channel 1) crowded))
          + (run (new_channel 1) crowded).pending_drops
        ≡ (run (new_channel 1) crowded).total_drops)
run_account_example = run_account 1 crowded crowded-IsPlain (omega arith)

emit_reserved_fits_example :
    (emit_reserved (run (new_channel 1) crowded) (exited [] none)
      ≡ push (run (new_channel 1) crowded) (exited [] none))
    × (length (run (new_channel 1) crowded).items ≤ 2)
emit_reserved_fits_example = emit_reserved_fits 1 crowded (exited [] none)

-- A connection with a block open for a command, and one with a command queued.
abbrev answering : Conn
answering = record (new_control_client 4) { current = some (new_pending 0 (codes "ls")) }

abbrev asking : Conn
asking = record (new_control_client 4) {
  started = true;
  saw_first_line = true;
  next_ticket = 1;
  queue = new_pending 0 (codes "ls") ∷ [];
}

open_block-IsQuiet_example :
    IsQuiet answering (handle_line answering (codes "%exit forged")).0
    × ((handle_line answering (codes "%exit forged")).1 ≡ true)
open_block-IsQuiet_example =
    open_block-IsQuiet answering (new_pending 0 (codes "ls")) (codes "%exit forged") refl

handle_line-Orders_example : Orders asking (handle_line asking (codes "%begin x")).0
handle_line-Orders_example = handle_line-Orders asking (codes "%begin x") (refl, tt)

new-IsSound : IsSound (new_control_client 4)
unfolding new_control_client
new-IsSound = record { events = tt; attached = inl refl }

read_lines-IsSound_example :
    IsSound
      (read_lines true (new_control_client 4) (codes "%window-add @1" ∷ codes "%pause 1" ∷ []))
read_lines-IsSound_example =
    read_lines-IsSound (codes "%window-add @1" ∷ codes "%pause 1" ∷ []) true (new_control_client 4)
      new-IsSound

abbrev one_queued : System
one_queued = record { conn = (enqueue (new_control_client 4) (codes "ls")).0; withdrawn = [] }

one_queued-Reach : Reach 4 one_queued
one_queued-Reach = next here (queues (start 4) (codes "ls"))

one_given : 0 < one_queued.conn.next_ticket
unfolding enqueue new_control_client
one_given = omega arith

held_once_example :
    count 0 (tickets one_queued.conn.settled)
      + (count 0 (bound one_queued.conn.current) + count 0 (tickets one_queued.conn.queue))
      + count 0 one_queued.withdrawn
    ≡ 1
held_once_example = held_once 4 one_queued 0 one_queued-Reach one_given

abbrev ended : System
ended = record { conn = finish_reader one_queued.conn none []; withdrawn = [] }

one_live : one_queued.conn.done ≡ false
unfolding enqueue new_control_client
one_live = refl

ended-Reach : Reach 4 ended
ended-Reach = next one_queued-Reach (finishes one_queued none [] one_live)

ended_done : ended.conn.done ≡ true
unfolding finish_reader
ended_done = refl

ended_given : 0 < ended.conn.next_ticket
unfolding finish_reader enqueue new_control_client
ended_given = omega arith

woken_once_example : count 0 (tickets ended.conn.settled) + count 0 ended.withdrawn ≡ 1
woken_once_example = woken_once 4 ended 0 ended-Reach ended_done ended_given

abbrev listing : Block
listing = record {
  header = codes "%begin 5 7 1";
  body = codes "x" ∷ [];
  terminator = codes "%end 5 7 1";
}

begins :
    classify (clean_line false (codes "%begin 5 7 1")) ≡ record (plain (codes "%begin 5 7 1")) {
      kind = begin_kind;
      time = pos 5;
      number = pos 7;
      flags = pos 1;
      has_flags = true;
    }
unfolding classify clean_line cut trim_suffix bytes_eq is_known_notification mem_bytes
    parse_block_args fields parse_int is_digit digits_from
begins = refl

body_plain : classify (clean_line false (codes "x")) ≡ plain (codes "x")
unfolding classify clean_line cut trim_suffix bytes_eq is_known_notification mem_bytes
    parse_block_args fields parse_int is_digit digits_from
body_plain = refl

ends : classify (clean_line false (codes "%end 5 7 1")) ≡ record (plain (codes "%end 5 7 1")) {
  kind = end_kind;
  time = pos 5;
  number = pos 7;
  flags = pos 1;
  has_flags = true;
}
unfolding classify clean_line cut trim_suffix bytes_eq is_known_notification mem_bytes
    parse_block_args fields parse_int is_digit digits_from
ends = refl

listing-IsReply : IsReply listing
unfolding closes_block unsolicited_block
listing-IsReply = record {
  opens = ap (λ l. l.kind) begins;
  parses = ap (λ l. l.malformed) begins;
  solicited = ap unsolicited_block begins;
  is_body = (rw body_plain refl, tt);
  closes = rw ends (ap (λ l. eqb_ℤ (pos 7) l.number) begins);
}

asking-IsIdle : IsIdle asking
unfolding new_control_client
asking-IsIdle = record { seen = refl; started = refl; no_block = refl }

replies_in_order_example :
    ((read_lines false asking (lines_of listing)).settled
      ≡ served (reply listing ∷ []) asking.queue)
    × ((read_lines false asking (lines_of listing)).queue ≡ [])
    × IsIdle (read_lines false asking (lines_of listing))
unfolding new_control_client
replies_in_order_example =
    replies_in_order (reply listing ∷ []) asking asking-IsIdle ((refl, refl), tt)
      (listing-IsReply, tt)

-- What tmux -CC writes first.
abbrev opening : Block
opening = record {
  header = 27 ∷ codes "P1000p%begin 1 2 0";
  body = [];
  terminator = codes "%end 1 2 0";
}

opening_begins :
    classify (clean_line true (27 ∷ codes "P1000p%begin 1 2 0"))
    ≡ record (plain (codes "%begin 1 2 0")) {
      kind = begin_kind;
      time = pos 1;
      number = pos 2;
      flags = pos 0;
      has_flags = true;
    }
unfolding classify clean_line trim_prefix has_prefix cut trim_suffix bytes_eq is_known_notification
    mem_bytes parse_block_args fields parse_int is_digit digits_from
opening_begins = refl

opening_ends :
    classify (clean_line false (codes "%end 1 2 0")) ≡ record (plain (codes "%end 1 2 0")) {
      kind = end_kind;
      time = pos 1;
      number = pos 2;
      flags = pos 0;
      has_flags = true;
    }
unfolding classify clean_line cut trim_suffix bytes_eq is_known_notification mem_bytes
    parse_block_args fields parse_int is_digit digits_from
opening_ends = refl

opening-IsOpening : IsOpening opening
unfolding closes_block
opening-IsOpening = record {
  opens = ap (λ l. l.kind) opening_begins;
  parses = ap (λ l. l.malformed) opening_begins;
  is_body = tt;
  closes = rw opening_ends (ap (λ l. eqb_ℤ (pos 2) l.number) opening_begins);
}

startup_in_order_example :
    (submit_all (partly_opened 4 opening 1) (codes "ls" ∷ []) ≡ partly_opened 4 opening 1)
    × ((all_opened 4 opening).settled ≡ [])
    × ((submit_all (all_opened 4 opening) (codes "ls" ∷ [])).queue
        ≡ pending_from 0 (codes "ls" ∷ []))
    × ((read_lines false
          (submit_all (all_opened 4 opening) (codes "ls" ∷ []))
          (stream_lines (reply listing ∷ []))).settled
        ≡ served (reply listing ∷ []) (pending_from 0 (codes "ls" ∷ [])))
    × ((read_lines false
          (submit_all (all_opened 4 opening) (codes "ls" ∷ []))
          (stream_lines (reply listing ∷ []))).queue
        ≡ [])
    × IsIdle (
        read_lines false
          (submit_all (all_opened 4 opening) (codes "ls" ∷ []))
          (stream_lines (reply listing ∷ [])))
startup_in_order_example =
    startup_in_order 4 opening 1 (codes "ls" ∷ []) (reply listing ∷ []) opening-IsOpening
      (listing-IsReply, tt)

asking_live : asking.closed ≡ false
unfolding new_control_client
asking_live = refl

do_result-carried_out_example :
    (p : Pending) × ((carried_out asking (codes "ps") (reply listing ∷ []) listing).settled
      ≡ (asking.settled ++ served (reply listing ∷ []) asking.queue) ++ p ∷ [])
    × (p.ticket ≡ asking.next_ticket)
    × ((carried_out asking (codes "ps") (reply listing ∷ []) listing).queue ≡ [])
    × (do_result (carried_out asking (codes "ps") (reply listing ∷ []) listing) p
        ≡ (reply_in listing, error_in (codes "ps") listing))
do_result-carried_out_example =
    do_result-carried_out asking (codes "ps") (reply listing ∷ []) listing asking_live asking-IsIdle
      ((refl, refl), tt) (listing-IsReply, tt) refl listing-IsReply

handle_line_stops_iff_example :
    ((handle_line asking (codes "%exit too far behind")).1 ≡ false)
    ↔ ((asking.current ≡ none) × IsExit (codes "%exit too far behind"))
handle_line_stops_iff_example = handle_line_stops_iff asking (codes "%exit too far behind")
