-- ===== src/Control/Reader/Order.antt =====
-- The order of the commands across one line (control_reader.go).
use gotmucks.Base.{
  Bool, true, false, not, ◌≡◌, refl, ◌∙◌, arith, Bytes, Option, none, some, Bool-cases, inl, inr,
}
use gotmucks.Ctlparse.{
  Line, Kind, begin_kind, end_kind, error_kind, notification, data_kind, classify,
}
use gotmucks.Control.Blocks.{is_error, is_begin, fail_head, begin_unnumbered_block}
use gotmucks.Control.Blocks.Order.{
  AllCommands, Orders, end_block-Orders, begin_block-Orders, fail_head-Orders,
  begin_unnumbered_block-Orders, data_line-Orders,
}
use gotmucks.Control.Notify.{find_case, cases, handle_notification}
use gotmucks.Control.Notify.Keeps.{Keeps, run_case-Keeps}
use gotmucks.Control.{Conn, Pending, emit, protocol_error, bad_header}
use gotmucks.Control.Reader.{note_first_line, dispatch, handle_line, malformed_header, by_kind}

trans-Orders : {a b c : Conn} → Orders a b → Orders b c → Orders a c
trans-Orders p q = record {
  same = q.same ∙ p.same;
  commands = q.commands;
  given = q.given ∙ p.given;
  closed = q.closed ∙ p.closed;
  done = q.done ∙ p.done;
}

note-Orders :
    (c : Conn) (cl : Line)
    → AllCommands c.queue
    → Orders c (note_first_line c cl) × ((note_first_line c cl).current ≡ c.current)
unfolding note_first_line
note-Orders c cl h = ground arith

Keeps-Orders : (b c : Conn) → Keeps b c → AllCommands b.queue → Orders b c
Keeps-Orders b c k h = ground arith

notification-Orders :
    (c : Conn) (cl : Line) → AllCommands c.queue → Orders c (handle_notification c cl).0
unfolding handle_notification
notification-Orders c cl h = Keeps-Orders c _ (run_case-Keeps (find_case cl.name cases) c cl).0 h

-- The block opened for a ruined header answers no command.
absorb-Orders : (c d : Conn) → Orders c d × (d.current ≡ none) → Orders c (begin_unnumbered_block d)
absorb-Orders c d (o, e) = trans-Orders o (begin_unnumbered_block-Orders d e o.commands)

header-Orders :
    (c : Conn) (cl : Line) (first : Bool)
    → c.current ≡ none
    → AllCommands c.queue
    → Orders c (malformed_header c cl first)
unfolding malformed_header
header-Orders c cl first e h =
    let why = bad_header cl.kind in
    let told : Conn = emit c (protocol_error cl.raw why) in
    let plain : Orders c told × (told.current ≡ none) = (Keeps-Orders c told (ground arith) h, e) in
    let (failed, none_open) = fail_head-Orders told cl.raw why e h in
    let ruined =
      absorb-Orders c (fail_head told cl.raw why) (trans-Orders plain.0 failed, none_open) in
    elim (Bool-cases (is_begin cl.kind)) [
      | inl begins ↦ elim (Bool-cases first) [
        | inl one ↦ rw (begins, one) (absorb-Orders c told plain)
        | inr later ↦ rw (begins, later) ruined
      ]
      | inr other ↦ rw other plain.0
    ]

by_kind-Orders :
    (k : Kind) (c : Conn) (cl : Line) (line : Bytes)
    → c.current ≡ none
    → AllCommands c.queue
    → Orders c (by_kind k c cl line).0
unfolding by_kind
by_kind-Orders begin_kind c cl line e h = begin_block-Orders c cl e h
by_kind-Orders end_kind c cl line e h = end_block-Orders c cl false h
by_kind-Orders error_kind c cl line e h = end_block-Orders c cl true h
by_kind-Orders notification c cl line e h = notification-Orders c cl h
by_kind-Orders data_kind c cl line e h = data_line-Orders c line h

dispatch-Orders :
    (o : Option Pending) (c : Conn) (cl : Line) (line : Bytes) (first : Bool)
    → c.current ≡ o
    → AllCommands c.queue
    → Orders c (dispatch o c cl line first).0
unfolding dispatch
dispatch-Orders (some p) c cl line first e h =
    ground (arith, end_block-Orders c cl (is_error cl.kind) h, data_line-Orders c line h)
dispatch-Orders none c cl line first e h =
    ground (arith, header-Orders c cl first e h, by_kind-Orders cl.kind c cl line e h)

-- Where the queue holds only commands, whatever line arrives, well formed or not, leaves the
-- commands woken, bound and queued the same as before, in the same order; and it changes neither
-- the number of tickets given out nor whether the connection is closed or done.
pub handle_line-Orders :
    (c : Conn) (line : Bytes) → AllCommands c.queue → Orders c (handle_line c line).0
unfolding handle_line
handle_line-Orders c line h =
    let cl = classify line in
    let (noted, same) = note-Orders c cl h in
    trans-Orders noted
      (dispatch-Orders _ (note_first_line c cl) cl line (not c.saw_first_line) refl noted.commands)
