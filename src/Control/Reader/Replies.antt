-- ===== src/Control/Reader/Replies.antt =====
-- The block of one reply, line by line (control_reader.go).
use gotmucks.Base.{
  true, false, not, List, [], ◌∷◌, ◌++◌, ◌≡◌, refl, ap, ◌∙◌, arith, Bytes, none, some, map, All,
  append-nil, append_assoc,
}
use gotmucks.Base.Int.{ℤ}
use gotmucks.Ctlparse.{Line, begin_kind, classify}
use gotmucks.Control.Blocks.{
  closes_block, end_block, begin_block, data_line, is_error, unsolicited_block, answer,
}
use gotmucks.Control.{Conn, Pending}
use gotmucks.Control.Reader.{note_first_line, dispatch, handle_line, clean_line, read_lines}

-- A line as `handleLine` gets it, behind the first.
abbrev pub cleaned : Bytes → Bytes
cleaned = clean_line false

-- The raw lines of one reply.
pub record Block : Type 0 where
  pub header : Bytes
  pub body : List Bytes
  pub terminator : Bytes

abbrev pub lines_of : Block → List Bytes
lines_of b = b.header ∷ (b.body ++ b.terminator ∷ [])

abbrev pub number_of : Block → ℤ
number_of b = (classify (cleaned b.header)).number

-- A block that tmux writes for a command of this client: a header that parses and is not marked as
-- unsolicited, a body in which no line is a terminator with the block's number, and such a line.
pub record IsReply (b : Block) : Type 0 where
  pub opens : (classify (cleaned b.header)).kind ≡ begin_kind
  pub parses : (classify (cleaned b.header)).malformed ≡ false
  pub solicited : unsolicited_block (classify (cleaned b.header)) ≡ false
  pub is_body : All (λ l. closes_block (classify (cleaned l)) (number_of b) true ≡ false) b.body
  pub closes : closes_block (classify (cleaned b.terminator)) (number_of b) true ≡ true

-- What the caller of the command reads: the number, the body line for line, and from the terminator
-- the flags, the time and whether the command failed.
abbrev pub answered : Pending → Block → Pending
answered p b =
    let end = classify (cleaned b.terminator) in
    answer (record p { number = number_of b; lines = p.lines ++ map cleaned b.body }) end
      (is_error end.kind)

-- A connection past its opening block, with no block open.
pub record IsIdle (cc : Conn) : Type 0 where
  pub seen : cc.saw_first_line ≡ true
  pub started : cc.started ≡ true
  pub no_block : cc.current ≡ none

note_first_line-seen :
    (cc : Conn) (cl : Line) → cc.saw_first_line ≡ true → note_first_line cc cl ≡ cc
unfolding note_first_line
note_first_line-seen cc cl e = ground arith

pub handle_line-seen :
    (cc : Conn) (line : Bytes)
    → cc.saw_first_line ≡ true
    → handle_line cc line ≡ dispatch cc.current cc (classify line) line false
unfolding handle_line
handle_line-seen cc line e =
    rw (note_first_line-seen cc (classify line) e)
      (ap (λ b. dispatch cc.current cc (classify line) line (not b)) e)

-- The header binds the command at the head of the queue.
header_line :
    (cc : Conn) (p : Pending) (q : List Pending) (cl : Line) (line : Bytes)
    → IsIdle cc
    → cc.queue ≡ p ∷ q
    → cl.kind ≡ begin_kind
    → cl.malformed ≡ false
    → unsolicited_block cl ≡ false
    → dispatch cc.current cc cl line false
      ≡ (record cc { queue = q; current = some (record p { number = cl.number }) }, true)
unfolding dispatch begin_block
header_line cc p q cl line i e k m u = ground arith

body_line :
    (cc : Conn) (p : Pending) (cl : Line) (line : Bytes)
    → cc.current ≡ some p
    → p.unnumbered ≡ false
    → closes_block cl p.number true ≡ false
    → dispatch cc.current cc cl line false
      ≡ (record cc { current = some (record p { lines = p.lines ++ line ∷ [] }) }, true)
unfolding dispatch data_line
body_line cc p cl line e n h = ground arith

end_line :
    (cc : Conn) (p : Pending) (cl : Line) (line : Bytes)
    → cc.current ≡ some p
    → p.unnumbered ≡ false
    → p.orphan ≡ false
    → closes_block cl p.number true ≡ true
    → dispatch cc.current cc cl line false ≡ (
      record cc {
        current = none;
        started = true;
        settled = cc.settled ++ answer p cl (is_error cl.kind) ∷ [];
      },
      true,
    )
unfolding dispatch end_block
end_line cc p cl line e n o h = ground arith

pub read_lines-cons :
    (cc cc' : Conn) (raw : Bytes) (raws : List Bytes)
    → handle_line cc (cleaned raw) ≡ (cc', true)
    → read_lines false cc (raw ∷ raws) ≡ read_lines false cc' raws
unfolding read_lines
read_lines-cons cc cc' raw raws e = rw e

pub body_lines :
    (body rest : List Bytes) (cc : Conn) (p : Pending)
    → cc.saw_first_line ≡ true
    → cc.current ≡ some p
    → p.unnumbered ≡ false
    → All (λ l. closes_block (classify (cleaned l)) p.number true ≡ false) body
    → read_lines false cc (body ++ rest)
      ≡ read_lines false
          (record cc { current = some (record p { lines = p.lines ++ map cleaned body }) })
          rest
body_lines [] rest cc p s e n h =
    ap (λ c. read_lines false c rest) (ground (arith, append-nil p.lines))
body_lines (l ∷ body) rest cc p s e n h =
    let p' : Pending = record p { lines = p.lines ++ cleaned l ∷ [] } in
    read_lines-cons cc (record cc { current = some p' }) l (body ++ rest)
      (handle_line-seen cc (cleaned l) s
        ∙ body_line cc p (classify (cleaned l)) (cleaned l) e n h.0)
    ∙ body_lines body rest (record cc { current = some p' }) p' s refl n h.1
    ∙ ap (λ ls. read_lines false (record cc { current = some (record p { lines = ls }) }) rest)
        (append_assoc p.lines (cleaned l ∷ []) (map cleaned body))

-- The block of one reply, read by an idle connection with a command queued: that command is woken
-- with what the block says, and the connection is idle again.
pub one_reply :
    (cc : Conn) (p : Pending) (q : List Pending) (b : Block) (rest : List Bytes)
    → IsIdle cc
    → cc.queue ≡ p ∷ q
    → p.orphan ≡ false
    → p.unnumbered ≡ false
    → IsReply b
    → read_lines false cc (lines_of b ++ rest)
      ≡ read_lines false
          (record cc {
            queue = q;
            current = none;
            started = true;
            settled = cc.settled ++ answered p b ∷ [];
          })
          rest
one_reply cc p q b rest i e o n r =
    let head = classify (cleaned b.header) in
    let bound : Pending = record p { number = number_of b } in
    let full : Pending = record bound { lines = p.lines ++ map cleaned b.body } in
    let opened : Conn = record cc { queue = q; current = some bound } in
    let read : Conn = record opened { current = some full } in
    read_lines-cons cc opened b.header _ (
      handle_line-seen cc (cleaned b.header) i.seen
      ∙ header_line cc p q head (cleaned b.header) i e r.opens r.parses r.solicited)
    ∙ ap (read_lines false opened) (append_assoc b.body (b.terminator ∷ []) rest)
    ∙ body_lines b.body (b.terminator ∷ rest) opened bound i.seen refl n r.is_body
    ∙ read_lines-cons read _ b.terminator rest (
        handle_line-seen read (cleaned b.terminator) i.seen
        ∙ end_line read full (classify (cleaned b.terminator)) (cleaned b.terminator) refl n o
            r.closes)
