-- ===== src/Control/Blocks.antt =====
-- The command blocks: control_reader.go from `closesBlock` to `dataLine`, and `releaseStartup` of
-- control.go. Each runs under the connection's lock or on the reader alone, so it is one step.
pub mod Order
use gotmucks.Base.{
  Bool, true, false, ◌&&◌, ◌||◌, not, List, [], ◌∷◌, ◌++◌, Bytes, Option, none, some, if◌then◌else◌,
}
use gotmucks.Base.Int.{ℤ, pos, eqb_ℤ}
use gotmucks.Ctlparse.{Kind, begin_kind, end_kind, error_kind, Line}
use gotmucks.Control.{
  Conn, Pending, new_pending, protocol_error, Reason, stray_terminator, stray_output,
  cannot_be_answered, emit,
}

-- The startup channel is closed once.
abbrev pub release_startup : Conn → Conn
release_startup cc = record cc { started = true }

abbrev pub is_begin : Kind → Bool
is_begin begin_kind = true
is_begin _ = false

abbrev pub is_error : Kind → Bool
is_error error_kind = true
is_error _ = false

abbrev pub is_end : Kind → Bool
is_end end_kind = true
is_end _ = false

-- Whether the line closes the open block, which has this number if `numbered`.
unfoldable pub closes_block : Line → ℤ → Bool → Bool
closes_block cl number numbered =
    if not (is_end cl.kind) && not (is_error cl.kind)
    then false
    else if not numbered
    then true
    else not cl.malformed && eqb_ℤ cl.number number

unfoldable pub unsolicited_block : Line → Bool
unsolicited_block cl = cl.has_flags && eqb_ℤ cl.flags (pos 0)

-- `&pending{number: …, orphan: true}`: no caller waits for it, so its ticket is never read.
abbrev pub orphan_block : ℤ → Bool → Pending
orphan_block number unnumbered = record (new_pending 0 []) {
  number = number;
  orphan = true;
  unnumbered = unnumbered;
}

-- The default case of `beginBlock`, on the queue.
unfoldable pub bind_head : Conn → Line → List Pending → Conn
bind_head cc cl [] = record cc { current = some (orphan_block cl.number false) }
bind_head cc cl (p ∷ rest) = record cc {
  queue = rest;
  current = some (record p { number = cl.number });
}

unfoldable pub begin_block : Conn → Line → Conn
unfolding bind_head unsolicited_block
begin_block cc cl =
    if not cc.started || unsolicited_block cl
    then record cc { current = some (orphan_block cl.number false) }
    else bind_head cc cl cc.queue

unfoldable pub begin_unnumbered_block : Conn → Conn
begin_unnumbered_block cc = record cc { current = some (orphan_block (pos 0) true) }

-- `failHead` on the queue, for the line and reason of its protocol error.
unfoldable pub fail_first : Conn → Bytes → Reason → List Pending → Conn
fail_first cc line why [] = cc
fail_first cc line why (p ∷ rest) = record cc {
  queue = rest;
  settled = cc.settled ++ (record p { fault = some (cannot_be_answered p.cmd line why) }) ∷ [];
}

unfoldable pub fail_head : Conn → Bytes → Reason → Conn
unfolding fail_first
fail_head cc line why = fail_first cc line why cc.queue

-- What the terminator writes into the block.
abbrev pub answer : Pending → Line → Bool → Pending
answer p cl failed = record p {
  failed = failed;
  answered = true;
  flags = cl.flags;
  reply_time = cl.time;
}

-- `endBlock` on the open block.
unfoldable pub end_current : Conn → Line → Bool → Option Pending → Conn
end_current cc cl failed none =
    emit (release_startup (record cc { current = none })) (protocol_error cl.raw stray_terminator)
end_current cc cl failed (some p) =
    let closed = release_startup (record cc { current = none }) in
    if not p.orphan
    then record closed { settled = cc.settled ++ (answer p cl failed) ∷ [] }
    else closed

unfoldable pub end_block : Conn → Line → Bool → Conn
unfolding end_current
end_block cc cl failed = end_current cc cl failed cc.current

-- `dataLine` on the open block, then on the line.
unfoldable pub stray_line : Conn → Bytes → Conn
stray_line cc [] = cc
stray_line cc (c ∷ s) = emit cc (protocol_error (c ∷ s) stray_output)

unfoldable pub add_line : Conn → Bytes → Option Pending → Conn
unfolding stray_line
add_line cc line none = stray_line cc line
add_line cc line (some p) = record cc { current = some (record p { lines = p.lines ++ line ∷ [] }) }

unfoldable pub data_line : Conn → Bytes → Conn
unfolding add_line
data_line cc line = add_line cc line cc.current
