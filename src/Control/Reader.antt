-- ===== src/Control/Reader.antt =====
-- `handleLine` and `readLoop` of control_reader.go.
pub mod Isolation
pub mod Replies
pub mod InOrder
pub mod Startup
pub mod Order
pub mod Exit
pub mod ValidIds
use gotmucks.Base.{
  Bool, true, false, not, List, [], ◌∷◌, Bytes, Option, none, some, if◌then◌else◌, codes,
}
use gotmucks.Strings.{split, trim_suffix, trim_prefix}
use gotmucks.Ctlparse.{
  Kind, data_kind, begin_kind, end_kind, error_kind, notification, Line, classify,
}
use gotmucks.Control.Blocks.{
  release_startup, is_begin, is_error, closes_block, begin_block, begin_unnumbered_block, fail_head,
  end_block, data_line,
}
use gotmucks.Control.Notify.{handle_notification}
use gotmucks.Control.{Conn, Pending, emit, protocol_error, bad_header}

-- The first line of a connection lifts the startup barrier, unless it opens a block.
unfoldable pub note_first_line : Conn → Line → Conn
note_first_line cc cl =
    let seen = record cc { saw_first_line = true } in
    if not cc.saw_first_line
    then (if not (is_begin cl.kind) then release_startup seen else seen)
    else cc

-- A header whose arguments did not parse, with no block open.
unfoldable pub malformed_header : Conn → Line → Bool → Conn
unfolding fail_head begin_unnumbered_block
malformed_header cc cl first =
    let told = emit cc (protocol_error cl.raw (bad_header cl.kind)) in
    if is_begin cl.kind
    then begin_unnumbered_block
        (if not first then fail_head told cl.raw (bad_header cl.kind) else told)
    else told

-- The switch on the kind, with no block open and arguments that parse.
unfoldable pub by_kind : Kind → Conn → Line → Bytes → Conn × Bool
by_kind begin_kind cc cl line = (begin_block cc cl, true)
by_kind end_kind cc cl line = (end_block cc cl false, true)
by_kind error_kind cc cl line = (end_block cc cl true, true)
by_kind notification cc cl line = handle_notification cc cl
by_kind data_kind cc cl line = (data_line cc line, true)

-- `handleLine` from `openBlock` on; the flag is `firstLine`.
unfoldable pub dispatch : Option Pending → Conn → Line → Bytes → Bool → Conn × Bool
unfolding by_kind
dispatch (some p) cc cl line first =
    if closes_block cl p.number (not p.unnumbered)
    then (end_block cc cl (is_error cl.kind), true)
    else (data_line cc line, true)
dispatch none cc cl line first =
    if cl.malformed then (malformed_header cc cl first, true) else by_kind cl.kind cc cl line

-- The connection after the line, and whether the reader carries on.
unfoldable pub handle_line : Conn → Bytes → Conn × Bool
unfolding dispatch note_first_line
handle_line cc line =
    let cl = classify line in
    let noted = note_first_line cc cl in
    dispatch noted.current noted cl line (not cc.saw_first_line)

-- What tmux -CC writes on entry.
abbrev pub dcs_enter : Bytes
dcs_enter = 0x1b ∷ codes "P1000p"

-- One raw line, its newline removed, as the loop hands it to `handleLine`.
unfoldable pub clean_line : Bool → Bytes → Bytes
clean_line first raw =
    let line = trim_suffix (13 ∷ []) raw in if first then trim_prefix dcs_enter line else line

-- The loop over the raw lines, up to `%exit` or the end of the input; the flag is `first`.
unfoldable pub read_lines : Bool → Conn → List Bytes → Conn
unfolding clean_line
read_lines first cc [] = cc
read_lines first cc (raw ∷ raws) =
    let (cc', more) = handle_line cc (clean_line first raw) in
    let rest = read_lines false cc' raws in if more then rest else cc'

-- The lines that `ReadString` returns: the text after the last newline is one only if it is not empty.
unfoldable pub raw_lines : List Bytes → List Bytes
raw_lines [] = []
raw_lines ([] ∷ []) = []
raw_lines ((c ∷ s) ∷ []) = (c ∷ s) ∷ []
raw_lines (l ∷ m ∷ ls) = l ∷ raw_lines (m ∷ ls)

-- All that arrives on the pipe up to its end, or up to `%exit`.
unfoldable pub read_stream : Conn → Bytes → Conn
unfolding read_lines raw_lines
read_stream cc stream = read_lines true cc (raw_lines (split b'\n' stream))
