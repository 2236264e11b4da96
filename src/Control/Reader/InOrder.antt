-- ===== src/Control/Reader/InOrder.antt =====
-- A whole stream of replies, with notifications between them (control_reader.go).
use gotmucks.Base.{
  true, false, List, [], ◌∷◌, ◌++◌, ◌≡◌, ◌≢◌, refl, sym, ap, ◌∙◌, arith, Bytes, none, All,
  append-nil, append_assoc,
}
use gotmucks.Ctlparse.{Line, notification, classify}
use gotmucks.Control.Notify.{exit_case, find_case, cases, run_case, handle_notification}
use gotmucks.Control.Notify.Keeps.{Keeps, run_case-Keeps}
use gotmucks.Control.{Conn, Pending}
use gotmucks.Control.Reader.Replies.{
  cleaned, Block, lines_of, IsReply, answered, IsIdle, handle_line-seen, read_lines-cons, one_reply,
}
use gotmucks.Control.Reader.{dispatch, handle_line, read_lines}

-- What tmux writes between two lines of the protocol: a reply, or a notification.
pub data Segment : Type 0 where
  reply : Block → Segment
  aside : Bytes → Segment

abbrev pub segment_lines : Segment → List Bytes
segment_lines (reply b) = lines_of b
segment_lines (aside l) = l ∷ []

abbrev pub stream_lines : List Segment → List Bytes
stream_lines [] = []
stream_lines (s ∷ ss) = segment_lines s ++ stream_lines ss

-- A line that is a notification other than `%exit`.
pub record IsAside (l : Bytes) : Type 0 where
  pub notifies : (classify (cleaned l)).kind ≡ notification
  pub parses : (classify (cleaned l)).malformed ≡ false
  pub goes_on : find_case (classify (cleaned l)).name cases ≢ exit_case

-- Every reply has a command, and every segment is well formed.
abbrev pub Fits : List Segment → List Pending → Type 0
Fits [] ps = Unit
Fits (aside l ∷ ss) ps = IsAside l × Fits ss ps
Fits (reply b ∷ ss) [] = ⊥
Fits (reply b ∷ ss) (p ∷ ps) = IsReply b × Fits ss ps

-- The commands that are answered, each with its own block: the first reply goes to the first
-- command, the second to the second.
abbrev pub served : List Segment → List Pending → List Pending
served [] ps = []
served (aside l ∷ ss) ps = served ss ps
served (reply b ∷ ss) [] = []
served (reply b ∷ ss) (p ∷ ps) = answered p b ∷ served ss ps

-- The commands that are still to be answered.
abbrev pub unserved : List Segment → List Pending → List Pending
unserved [] ps = ps
unserved (aside l ∷ ss) ps = unserved ss ps
unserved (reply b ∷ ss) [] = []
unserved (reply b ∷ ss) (p ∷ ps) = unserved ss ps

-- A command as `Do` queues it.
abbrev pub IsCommand : Pending → Type 0
IsCommand p = (p.orphan ≡ false) × (p.unnumbered ≡ false)

aside-dispatch :
    (cc : Conn) (cl : Line) (line : Bytes)
    → cc.current ≡ none
    → cl.kind ≡ notification
    → cl.malformed ≡ false
    → dispatch cc.current cc cl line false ≡ run_case (find_case cl.name cases) cc cl
unfolding dispatch handle_notification
aside-dispatch cc cl line e k m = ground arith

-- A notification between two blocks is handled without touching the commands.
aside_line :
    (cc : Conn) (l : Bytes) (rest : List Bytes)
    → IsIdle cc
    → IsAside l
    → (cc' : Conn) × (read_lines false cc (l ∷ rest) ≡ read_lines false cc' rest) × Keeps cc cc'
aside_line cc l rest i a =
    let cl = classify (cleaned l) in
    let c = find_case cl.name cases in
    let (keeps, more) = run_case-Keeps c cc cl in
    let step : handle_line cc (cleaned l) ≡ ((run_case c cc cl).0, true) =
      handle_line-seen cc (cleaned l) i.seen
      ∙ aside-dispatch cc cl (cleaned l) i.no_block a.notifies a.parses
      ∙ ap (λ b. ((run_case c cc cl).0, b)) (more a.goes_on) in
    ((run_case c cc cl).0, read_lines-cons cc _ l rest step, keeps)

-- The stream as a whole, on the queue.
replies_from :
    (ss : List Segment) (cc : Conn) (ps : List Pending)
    → cc.queue ≡ ps
    → IsIdle cc
    → All IsCommand ps
    → Fits ss ps
    → ((read_lines false cc (stream_lines ss)).settled ≡ cc.settled ++ served ss ps)
      × ((read_lines false cc (stream_lines ss)).queue ≡ unserved ss ps)
      × IsIdle (read_lines false cc (stream_lines ss))
replies_from [] cc ps e i h f = unfold read_lines in (sym (append-nil cc.settled), e, i)
replies_from (aside l ∷ ss) cc ps e i h f =
    let (cc', step, k) = aside_line cc l (stream_lines ss) i f.0 in
    let idle : IsIdle cc' = record {
      seen = k.saw_first_line ∙ i.seen;
      started = k.started ∙ i.started;
      no_block = k.current ∙ i.no_block;
    } in
    let (s, q, d) = replies_from ss cc' ps (k.queue ∙ e) idle h f.1 in
    rw step (s ∙ ap (λ t. t ++ served ss ps) k.settled, q, d)
replies_from (reply b ∷ ss) cc [] e i h f = absurd f
replies_from (reply b ∷ ss) cc (p ∷ ps) e i h f =
    let step = one_reply cc p ps b (stream_lines ss) i e h.0.0 h.0.1 f.0 in
    let after : Conn = record cc {
      queue = ps;
      current = none;
      started = true;
      settled = cc.settled ++ answered p b ∷ [];
    } in
    let idle : IsIdle after = record { seen = i.seen; started = refl; no_block = refl } in
    let (s, q, d) = replies_from ss after ps refl idle h.1 f.1 in
    rw step (s ∙ append_assoc cc.settled (answered p b ∷ []) (served ss ps), q, d)

-- On a connection past its opening block with no block open, any sequence of well-formed replies,
-- no more than there are queued commands, with notifications other than %exit between them, wakes
-- the commands in the order in which they were queued, each with the number, body, flags, time and
-- outcome of its own block; the rest stay queued and the connection is ready for more.
pub replies_in_order :
    (ss : List Segment) (cc : Conn)
    → IsIdle cc
    → All IsCommand cc.queue
    → Fits ss cc.queue
    → ((read_lines false cc (stream_lines ss)).settled ≡ cc.settled ++ served ss cc.queue)
      × ((read_lines false cc (stream_lines ss)).queue ≡ unserved ss cc.queue)
      × IsIdle (read_lines false cc (stream_lines ss))
replies_in_order ss cc i h f = replies_from ss cc cc.queue refl i h f
