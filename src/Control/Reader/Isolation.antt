-- ===== src/Control/Reader/Isolation.antt =====
-- The lines inside an open block (control_reader.go).
use gotmucks.Base.{Bool, true, not, ◌≡◌, refl, ◌∙◌, arith, Bytes, Option, none, some}
use gotmucks.Ctlparse.{Line, classify}
use gotmucks.Control.Blocks.{end_block, data_line}
use gotmucks.Control.{Conn, Pending}
use gotmucks.Control.Reader.{note_first_line, dispatch, handle_line}

-- What a line in an open block must leave alone.
pub record IsQuiet (before after : Conn) : Type 0 where
  pub out : after.out ≡ before.out
  pub attached : after.attached ≡ before.attached
  pub saw_exit : after.saw_exit ≡ before.saw_exit
  pub exit_msg : after.exit_msg ≡ before.exit_msg
  pub taps : after.taps ≡ before.taps
  pub queue : after.queue ≡ before.queue

dispatch-IsQuiet :
    (p : Pending) (o : Option Pending) (cc : Conn) (cl : Line) (line : Bytes) (first : Bool)
    → o ≡ some p
    → cc.current ≡ some p
    → IsQuiet cc (dispatch o cc cl line first).0 × ((dispatch o cc cl line first).1 ≡ true)
unfolding dispatch end_block data_line
dispatch-IsQuiet p none cc cl line first e h = ground arith
dispatch-IsQuiet p (some q) cc cl line first e h = ground arith

note-IsQuiet :
    (cc : Conn) (cl : Line)
    → IsQuiet cc (note_first_line cc cl) × ((note_first_line cc cl).current ≡ cc.current)
unfolding note_first_line
note-IsQuiet cc cl = ground arith

trans-IsQuiet : {a b c : Conn} → IsQuiet a b → IsQuiet b c → IsQuiet a c
trans-IsQuiet p q = record {
  out = q.out ∙ p.out;
  attached = q.attached ∙ p.attached;
  saw_exit = q.saw_exit ∙ p.saw_exit;
  exit_msg = q.exit_msg ∙ p.exit_msg;
  taps = q.taps ∙ p.taps;
  queue = q.queue ∙ p.queue;
}

handle_line-dispatch :
    (cc : Conn) (line : Bytes)
    → handle_line cc line
      ≡ dispatch
          (note_first_line cc (classify line)).current
          (note_first_line cc (classify line))
          (classify line)
          line
          (not cc.saw_first_line)
unfolding handle_line
handle_line-dispatch cc line = refl

-- While a block is open no line makes an event, changes the attached session, a tap or the record
-- of %exit, takes a command off the queue, or ends the connection.
pub open_block-IsQuiet :
    (cc : Conn) (p : Pending) (line : Bytes)
    → cc.current ≡ some p
    → IsQuiet cc (handle_line cc line).0 × ((handle_line cc line).1 ≡ true)
open_block-IsQuiet cc p line e =
    let cl = classify line in
    let noted = note_first_line cc cl in
    let (quiet, same) = note-IsQuiet cc cl in
    let (later, more) =
      dispatch-IsQuiet p noted.current noted cl line (not cc.saw_first_line) (same ∙ e)
        (same ∙ e) in
    rw handle_line-dispatch (trans-IsQuiet quiet later, more)
