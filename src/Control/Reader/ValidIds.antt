-- ===== src/Control/Reader/ValidIds.antt =====
-- The identifiers in the events of a whole stream of lines (control_reader.go).
use gotmucks.Base.{Bool, true, false, not, List, [], ◌∷◌, ◌≡◌, arith, Bytes, Option, none, some}
use gotmucks.Ctlparse.{
  Line, Kind, begin_kind, end_kind, error_kind, notification, data_kind, classify,
}
use gotmucks.Control.Blocks.{
  is_error, begin_block, begin_unnumbered_block, bind_head, fail_head, fail_first, end_block,
  end_current, data_line, add_line, stray_line,
}
use gotmucks.Control.Notify.{find_case, cases, handle_notification}
use gotmucks.Control.Notify.ValidIds.{NamesIds, IsSound, if_IsSound, emit-IsSound, run_case-IsSound}
use gotmucks.Control.{
  Conn, Pending, Reason, emit, protocol_error, bad_header, stray_terminator, stray_output,
}
use gotmucks.Control.Reader.{
  note_first_line, dispatch, handle_line, malformed_header, by_kind, clean_line, read_lines,
}

-- Whatever leaves the events and the attached session alone.
same-IsSound : (b c : Conn) → c.out ≡ b.out → c.attached ≡ b.attached → IsSound b → IsSound c
same-IsSound b c o a h = record { events = rw o h.events; attached = rw a h.attached }

note-IsSound : (c : Conn) (cl : Line) → IsSound c → IsSound (note_first_line c cl)
unfolding note_first_line
note-IsSound c cl = same-IsSound c (note_first_line c cl) (ground arith) (ground arith)

report-IsSound :
    (c : Conn) (line : Bytes) (why : Reason)
    → IsSound c
    → IsSound (emit c (protocol_error line why))
unfolding NamesIds
report-IsSound c line why h = emit-IsSound c (protocol_error line why) tt h

begin_block-IsSound : (c : Conn) (cl : Line) → IsSound c → IsSound (begin_block c cl)
unfolding begin_block bind_head
begin_block-IsSound c cl = same-IsSound c (begin_block c cl) (ground arith) (ground arith)

end_current-IsSound :
    (c : Conn) (cl : Line) (failed : Bool) (o : Option Pending)
    → IsSound c
    → IsSound (end_current c cl failed o)
unfolding end_current
end_current-IsSound c cl failed none h =
    report-IsSound _ cl.raw stray_terminator (record { events = h.events; attached = h.attached })
end_current-IsSound c cl failed (some p) h =
    same-IsSound c (end_current c cl failed (some p)) (ground arith) (ground arith) h

end_block-IsSound :
    (c : Conn) (cl : Line) (failed : Bool) → IsSound c → IsSound (end_block c cl failed)
unfolding end_block
end_block-IsSound c cl failed h = end_current-IsSound c cl failed c.current h

stray_line-IsSound : (c : Conn) (line : Bytes) → IsSound c → IsSound (stray_line c line)
unfolding stray_line
stray_line-IsSound c [] h = h
stray_line-IsSound c (b ∷ s) h = report-IsSound c (b ∷ s) stray_output h

add_line-IsSound :
    (c : Conn) (line : Bytes) (o : Option Pending) → IsSound c → IsSound (add_line c line o)
unfolding add_line
add_line-IsSound c line none h = stray_line-IsSound c line h
add_line-IsSound c line (some p) h = record { events = h.events; attached = h.attached }

data_line-IsSound : (c : Conn) (line : Bytes) → IsSound c → IsSound (data_line c line)
unfolding data_line
data_line-IsSound c line h = add_line-IsSound c line c.current h

header-IsSound :
    (c : Conn) (cl : Line) (first : Bool) → IsSound c → IsSound (malformed_header c cl first)
unfolding malformed_header fail_head fail_first begin_unnumbered_block
header-IsSound c cl first h =
    let told : Conn = emit c (protocol_error cl.raw (bad_header cl.kind)) in
    same-IsSound told (malformed_header c cl first) (ground arith) (ground arith)
      (report-IsSound c cl.raw (bad_header cl.kind) h)

by_kind-IsSound :
    (k : Kind) (c : Conn) (cl : Line) (line : Bytes) → IsSound c → IsSound (by_kind k c cl line).0
unfolding by_kind handle_notification
by_kind-IsSound begin_kind c cl line h = begin_block-IsSound c cl h
by_kind-IsSound end_kind c cl line h = end_block-IsSound c cl false h
by_kind-IsSound error_kind c cl line h = end_block-IsSound c cl true h
by_kind-IsSound notification c cl line h = run_case-IsSound (find_case cl.name cases) c cl h
by_kind-IsSound data_kind c cl line h = data_line-IsSound c line h

dispatch-IsSound :
    (o : Option Pending) (c : Conn) (cl : Line) (line : Bytes) (first : Bool)
    → IsSound c
    → IsSound (dispatch o c cl line first).0
unfolding dispatch
dispatch-IsSound (some p) c cl line first h =
    ground (arith, end_block-IsSound c cl (is_error cl.kind) h, data_line-IsSound c line h)
dispatch-IsSound none c cl line first h =
    ground (arith, header-IsSound c cl first h, by_kind-IsSound cl.kind c cl line h)

handle_line-IsSound : (c : Conn) (line : Bytes) → IsSound c → IsSound (handle_line c line).0
unfolding handle_line
handle_line-IsSound c line h =
    dispatch-IsSound _ _ (classify line) line (not c.saw_first_line)
      (note-IsSound c (classify line) h)

-- Whatever lines are read, if the events so far and the attached session name objects by
-- well-formed identifiers or leave them empty, so do all events and the attached session
-- afterwards.
pub read_lines-IsSound :
    (lines : List Bytes) (first : Bool) (c : Conn) → IsSound c → IsSound (read_lines first c lines)
unfolding read_lines
read_lines-IsSound [] first c h = h
read_lines-IsSound (l ∷ ls) first c h =
    let (c', more) = handle_line c (clean_line first l) in
    let one = handle_line-IsSound c (clean_line first l) h in
    if_IsSound more _ c' (λ _. read_lines-IsSound ls false c' one) (λ _. one)
