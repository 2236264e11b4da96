-- ===== src/Control/Reader/Startup.antt =====
-- The block that tmux opens for the command that started the connection, and the replies after it
-- (control_reader.go).
use gotmucks.Base.{
  All-take, ℕ, zero, suc, sym, append-nil, take, true, false, not, List, [], ◌∷◌, ◌++◌, ◌≡◌, refl,
  ap, ◌∙◌, arith, Bytes, none, some, map, All, append_assoc,
}
use gotmucks.Base.Int.{ℤ}
use gotmucks.Ctlparse.{Line, begin_kind, classify}
use gotmucks.Control.Blocks.{closes_block, end_block, begin_block, orphan_block}
use gotmucks.Control.{Conn, Pending, new_pending, new_control_client}
use gotmucks.Control.Queue.{submit, enqueue}
use gotmucks.Control.Reader.{note_first_line, dispatch, handle_line, clean_line, read_lines}
use gotmucks.Control.Reader.Replies.{
  cleaned, Block, lines_of, IsIdle, handle_line-seen, read_lines-cons, body_lines,
}
use gotmucks.Control.Reader.InOrder.{
  Segment, stream_lines, Fits, served, unserved, IsCommand, replies_in_order,
}

-- The first line of a connection, as `handleLine` gets it.
abbrev pub first_line : Bytes → Bytes
first_line = clean_line true

abbrev pub opening_number : Block → ℤ
opening_number b = (classify (first_line b.header)).number

-- A block that comes first: a header that parses, a body in which no line is a terminator with the
-- block's number, and such a line. Its flags may be any.
pub record IsOpening (b : Block) : Type 0 where
  pub opens : (classify (first_line b.header)).kind ≡ begin_kind
  pub parses : (classify (first_line b.header)).malformed ≡ false
  pub is_body :
      All (λ l. closes_block (classify (cleaned l)) (opening_number b) true ≡ false) b.body
  pub closes : closes_block (classify (cleaned b.terminator)) (opening_number b) true ≡ true

-- A connection that has read nothing.
pub record IsFresh (cc : Conn) : Type 0 where
  pub unseen : cc.saw_first_line ≡ false
  pub waits : cc.started ≡ false
  pub no_block : cc.current ≡ none

note_opening :
    (cc : Conn) (cl : Line)
    → cc.saw_first_line ≡ false
    → cl.kind ≡ begin_kind
    → note_first_line cc cl ≡ record cc { saw_first_line = true }
unfolding note_first_line
note_opening cc cl u k = ground arith

dispatch_opening :
    (cc : Conn) (cl : Line) (line : Bytes)
    → cc.current ≡ none
    → cc.started ≡ false
    → cl.kind ≡ begin_kind
    → cl.malformed ≡ false
    → dispatch cc.current cc cl line true
      ≡ (record cc { current = some (orphan_block cl.number false) }, true)
unfolding dispatch begin_block
dispatch_opening cc cl line e w k m = ground arith

opened : Conn → ℤ → Conn
opened cc n = record cc { saw_first_line = true; current = some (orphan_block n false) }

header_opening :
    (cc : Conn) (line : Bytes)
    → IsFresh cc
    → (classify line).kind ≡ begin_kind
    → (classify line).malformed ≡ false
    → handle_line cc line ≡ (opened cc (classify line).number, true)
unfolding handle_line opened
header_opening cc line f k m =
    let cl = classify line in
    rw (note_opening cc cl f.unseen k) (
      ap (λ b. dispatch cc.current (record cc { saw_first_line = true }) cl line (not b)) f.unseen
      ∙ dispatch_opening (record cc { saw_first_line = true }) cl line f.no_block f.waits k m)

end_orphan :
    (cc : Conn) (p : Pending) (cl : Line) (line : Bytes)
    → cc.current ≡ some p
    → p.unnumbered ≡ false
    → p.orphan ≡ true
    → closes_block cl p.number true ≡ true
    → dispatch cc.current cc cl line false ≡ (record cc { current = none; started = true }, true)
unfolding dispatch end_block
end_orphan cc p cl line e n o h = ground arith

read_first :
    (cc cc' : Conn) (raw : Bytes) (raws : List Bytes)
    → handle_line cc (first_line raw) ≡ (cc', true)
    → read_lines true cc (raw ∷ raws) ≡ read_lines false cc' raws
unfolding read_lines
read_first cc cc' raw raws e = rw e refl

-- The opening block is read without touching the commands, and the connection is ready after it.
opening_block :
    (cc : Conn) (b : Block) (rest : List Bytes)
    → IsFresh cc
    → IsOpening b
    → read_lines true cc (lines_of b ++ rest)
      ≡ read_lines false (record cc { saw_first_line = true; started = true; current = none }) rest
unfolding opened
opening_block cc b rest f o =
    let p : Pending = orphan_block (opening_number b) false in
    let full : Pending = record p { lines = p.lines ++ map cleaned b.body } in
    let begun : Conn = record cc { saw_first_line = true; current = some p } in
    let read : Conn = record begun { current = some full } in
    read_first cc begun b.header _ (header_opening cc (first_line b.header) f o.opens o.parses)
    ∙ ap (read_lines false begun) (append_assoc b.body (b.terminator ∷ []) rest)
    ∙ body_lines b.body (b.terminator ∷ rest) begun p refl refl refl o.is_body
    ∙ read_lines-cons read _ b.terminator rest (
        handle_line-seen read (cleaned b.terminator) refl
        ∙ end_orphan read full (classify (cleaned b.terminator)) (cleaned b.terminator) refl refl
            refl o.closes)

-- Commands that callers have ready, handed in one after another.
abbrev pub submit_all : Conn → List Bytes → Conn
submit_all cc [] = cc
submit_all cc (cmd ∷ cmds) = submit_all (submit cc cmd).0 cmds

-- The commands as they are queued, with tickets from this one on.
abbrev pub pending_from : ℕ → List Bytes → List Pending
pending_from t [] = []
pending_from t (cmd ∷ cmds) = new_pending t cmd ∷ pending_from (suc t) cmds

submit_held : (cc : Conn) (cmd : Bytes) → cc.started ≡ false → (submit cc cmd).0 ≡ cc
unfolding submit
submit_held cc cmd e = ground arith

submit_all-held : (cc : Conn) (cmds : List Bytes) → cc.started ≡ false → submit_all cc cmds ≡ cc
submit_all-held cc [] e = refl
submit_all-held cc (cmd ∷ cmds) e =
    ap (λ c. submit_all c cmds) (submit_held cc cmd e) ∙ submit_all-held cc cmds e

-- What queueing leaves alone.
record Queued (cc after : Conn) (ps : List Pending) : Type 0 where
  queue : after.queue ≡ cc.queue ++ ps
  settled : after.settled ≡ cc.settled
  seen : after.saw_first_line ≡ cc.saw_first_line
  started : after.started ≡ true
  current : after.current ≡ cc.current

submit_open :
    (cc : Conn) (cmd : Bytes)
    → cc.started ≡ true
    → cc.closed ≡ false
    → (submit cc cmd).0 ≡ record cc {
      next_ticket = suc cc.next_ticket;
      queue = cc.queue ++ new_pending cc.next_ticket cmd ∷ [];
    }
unfolding submit enqueue
submit_open cc cmd e live = ground arith

submit_all-Queued :
    (cc : Conn) (cmds : List Bytes)
    → cc.started ≡ true
    → cc.closed ≡ false
    → Queued cc (submit_all cc cmds) (pending_from cc.next_ticket cmds)
submit_all-Queued cc [] e live = record {
  queue = sym (append-nil cc.queue);
  settled = refl;
  seen = refl;
  started = e;
  current = refl;
}
submit_all-Queued cc (cmd ∷ cmds) e live =
    let p = new_pending cc.next_ticket cmd in
    let more : Conn = record cc { next_ticket = suc cc.next_ticket; queue = cc.queue ++ p ∷ [] } in
    let rest = submit_all-Queued more cmds e live in
    rw (submit_open cc cmd e live) (record {
      queue = rest.queue ∙ append_assoc cc.queue (p ∷ []) (pending_from (suc cc.next_ticket) cmds);
      settled = rest.settled;
      seen = rest.seen;
      started = rest.started;
      current = rest.current;
    })

pending_from-IsCommand : (t : ℕ) (cmds : List Bytes) → All IsCommand (pending_from t cmds)
pending_from-IsCommand t [] = tt
pending_from-IsCommand t (cmd ∷ cmds) = ((refl, refl), pending_from-IsCommand (suc t) cmds)

-- The connection after some of the lines of its opening block, the terminator not among them.
abbrev pub partly_opened : ℕ → Block → ℕ → Conn
partly_opened n b k = read_lines true (new_control_client n) (take k (b.header ∷ b.body))

-- The connection after its opening block.
abbrev pub all_opened : ℕ → Block → Conn
all_opened n b = read_lines true (new_control_client n) (lines_of b)

new-IsFresh : (n : ℕ) → IsFresh (new_control_client n)
unfolding new_control_client
new-IsFresh n = record { unseen = refl; waits = refl; no_block = refl }

part-held : (n : ℕ) (b : Block) (k : ℕ) → IsOpening b → (partly_opened n b k).started ≡ false
unfolding opened
part-held n b zero o = unfold read_lines new_control_client in refl
part-held n b (suc k) o =
    let new = new_control_client n in
    let p : Pending = orphan_block (opening_number b) false in
    let begun : Conn = record new { saw_first_line = true; current = some p } in
    let body = take k b.body in
    let fresh = new-IsFresh n in
    let read =
      read_first new begun b.header body
        (header_opening new (first_line b.header) fresh o.opens o.parses)
      ∙ ap (read_lines false begun) (sym (append-nil body))
      ∙ body_lines body [] begun p refl refl refl (All-take _ k b.body o.is_body) in
    ap (λ c. c.started) read ∙ unfold read_lines in fresh.waits

-- The connection behind its opening block.
ready : ℕ → Conn
ready n = record (new_control_client n) { saw_first_line = true; started = true; current = none }

all_opened-ready : (n : ℕ) (b : Block) → IsOpening b → all_opened n b ≡ ready n
unfolding ready
all_opened-ready n b o =
    ap (read_lines true (new_control_client n)) (sym (append-nil (lines_of b)))
    ∙ opening_block (new_control_client n) b [] (new-IsFresh n) o
    ∙ unfold read_lines in refl

-- While a new connection has read no more than a part of an opening block without its terminator,
-- whatever flags its header has, every command that a caller hands in is held back. Once it has
-- read the terminator, no command has been woken, and the commands that are handed in then are
-- queued in order; and where well-formed replies come then, no more than there are commands, with
-- notifications other than %exit between them, they wake the commands in that order, each with its
-- own block, and leave the rest queued and the connection ready for more.
pub startup_in_order :
    (n : ℕ) (b : Block) (k : ℕ) (cmds : List Bytes) (ss : List Segment)
    → IsOpening b
    → Fits ss (pending_from 0 cmds)
    → (submit_all (partly_opened n b k) cmds ≡ partly_opened n b k)
      × ((all_opened n b).settled ≡ [])
      × ((submit_all (all_opened n b) cmds).queue ≡ pending_from 0 cmds)
      × ((read_lines false (submit_all (all_opened n b) cmds) (stream_lines ss)).settled
          ≡ served ss (pending_from 0 cmds))
      × ((read_lines false (submit_all (all_opened n b) cmds) (stream_lines ss)).queue
          ≡ unserved ss (pending_from 0 cmds))
      × IsIdle (read_lines false (submit_all (all_opened n b) cmds) (stream_lines ss))
unfolding ready new_control_client
startup_in_order n b k cmds ss o fits =
    let q = submit_all-Queued (ready n) cmds refl refl in
    let after = submit_all (ready n) cmds in
    let idle : IsIdle after = record { seen = q.seen; started = q.started; no_block = q.current } in
    let commands : All IsCommand after.queue = rw q.queue (pending_from-IsCommand 0 cmds) in
    let answering : Fits ss after.queue = rw q.queue fits in
    let (s, u, i) = replies_in_order ss after idle commands answering in
    (
      submit_all-held (partly_opened n b k) cmds (part-held n b k o),
      rw (all_opened-ready n b o) refl,
      rw (all_opened-ready n b o) q.queue,
      rw (all_opened-ready n b o)
          (s ∙ ap (λ t. t ++ served ss after.queue) q.settled ∙ ap (served ss) q.queue),
      rw (all_opened-ready n b o) (u ∙ ap (unserved ss) q.queue),
      rw (all_opened-ready n b o) i,
    )
