-- ===== src/Control/Queue/Outcome.antt =====
-- The result of `Do` (control.go).
use gotmucks.Base.{
  ℕ, suc, true, false, List, [], ◌∷◌, ◌++◌, ◌≡◌, ◌↔◌, refl, sym, ap, ◌∙◌, All-append, arith, Bytes,
  Option, none, some, map, All, append_assoc, if◌then◌else◌,
}
use gotmucks.Strings.{join}
use gotmucks.Ctlparse.{Kind, error_kind, classify}
use gotmucks.Control.Blocks.{is_error}
use gotmucks.Control.Reader.{read_lines}
use gotmucks.Control.Reader.Replies.{Block, IsReply, IsIdle, answered, cleaned, number_of}
use gotmucks.Control.Reader.InOrder.{
  Segment, reply, aside, stream_lines, Fits, served, unserved, IsCommand, replies_in_order,
}
use gotmucks.Control.{Conn, Pending, new_pending}
use gotmucks.Control.Queue.{enqueue, do_result, Reply, DoError, control_error}

-- Do returns no error exactly if no ruined header took the command off the queue, a block answered
-- it, and that block did not fail.
do_result_iff :
    (cc : Conn) (p : Pending)
    → ((do_result cc p).1 ≡ none) ↔ ((p.fault ≡ none) × (p.answered ≡ true) × (p.failed ≡ false))
unfolding do_result
do_result_iff cc p = ground arith

-- Replies for the commands that are queued, and then one for the command queued behind them.
Fits-last :
    (ss : List Segment) (ps : List Pending) (p : Pending) (b : Block)
    → Fits ss ps
    → unserved ss ps ≡ []
    → IsReply b
    → Fits (ss ++ reply b ∷ []) (ps ++ p ∷ [])
Fits-last [] [] p b f u r = (r, tt)
Fits-last [] (q ∷ ps) p b f u r = absurd (ground (arith, u))
Fits-last (aside l ∷ ss) ps p b f u r = (f.0, Fits-last ss ps p b f.1 u r)
Fits-last (reply d ∷ ss) [] p b f u r = absurd f
Fits-last (reply d ∷ ss) (q ∷ ps) p b f u r = (f.0, Fits-last ss ps p b f.1 u r)

served-last :
    (ss : List Segment) (ps : List Pending) (p : Pending) (b : Block)
    → Fits ss ps
    → unserved ss ps ≡ []
    → served (ss ++ reply b ∷ []) (ps ++ p ∷ []) ≡ served ss ps ++ answered p b ∷ []
served-last [] [] p b f u = refl
served-last [] (q ∷ ps) p b f u = absurd (ground (arith, u))
served-last (aside l ∷ ss) ps p b f u = served-last ss ps p b f.1 u
served-last (reply d ∷ ss) [] p b f u = absurd f
served-last (reply d ∷ ss) (q ∷ ps) p b f u = ap (◌∷◌ (answered q d)) (served-last ss ps p b f.1 u)

unserved-last :
    (ss : List Segment) (ps : List Pending) (p : Pending) (b : Block)
    → Fits ss ps
    → unserved ss ps ≡ []
    → unserved (ss ++ reply b ∷ []) (ps ++ p ∷ []) ≡ []
unserved-last [] [] p b f u = refl
unserved-last [] (q ∷ ps) p b f u = absurd (ground (arith, u))
unserved-last (aside l ∷ ss) ps p b f u = unserved-last ss ps p b f.1 u
unserved-last (reply d ∷ ss) [] p b f u = absurd f
unserved-last (reply d ∷ ss) (q ∷ ps) p b f u = unserved-last ss ps p b f.1 u

-- What the caller is to get: the number of the block's header, its body line for line, and the flags
-- and the time of its terminator.
abbrev pub reply_in : Block → Reply
reply_in b = record {
  number = number_of b;
  reply_time = (classify (cleaned b.terminator)).time;
  flags = (classify (cleaned b.terminator)).flags;
  output = map cleaned b.body;
}

abbrev error_by : Kind → Bytes → Block → Option DoError
error_by error_kind cmd b =
    some (control_error cmd (number_of b) (join (b'\n' ∷ []) (map cleaned b.body)))
error_by _ cmd b = none

-- The error for the caller: none if the block ended with `%end`, and else the body as its message.
abbrev pub error_in : Bytes → Block → Option DoError
error_in cmd b = error_by (classify (cleaned b.terminator)).kind cmd b

-- The connection after the command is queued, these segments are read, and then this block.
abbrev pub carried_out : Conn → Bytes → List Segment → Block → Conn
carried_out cc cmd ss b = read_lines false (enqueue cc cmd).0 (stream_lines (ss ++ reply b ∷ []))

error_by-kind :
    (k : Kind) (cmd : Bytes) (b : Block)
    → (if is_error k
        then some (control_error cmd (number_of b) (join (b'\n' ∷ []) (map cleaned b.body)))
        else none)
      ≡ error_by k cmd b
error_by-kind error_kind cmd b = refl
error_by-kind _ cmd b = refl

do_result-block :
    (cc : Conn) (ticket : ℕ) (cmd : Bytes) (b : Block)
    → do_result cc (answered (new_pending ticket cmd) b) ≡ (reply_in b, error_in cmd b)
unfolding do_result
do_result-block cc ticket cmd b =
    ap (λ e. (reply_in b, e)) (error_by-kind (classify (cleaned b.terminator)).kind cmd b)

enqueue_open :
    (cc : Conn) (cmd : Bytes)
    → cc.closed ≡ false
    → (enqueue cc cmd).0 ≡ record cc {
      next_ticket = suc cc.next_ticket;
      queue = cc.queue ++ new_pending cc.next_ticket cmd ∷ [];
    }
unfolding enqueue
enqueue_open cc cmd live = ground arith

-- On a connection that has not ended, is past its opening block and has no block open: where a
-- command is queued, the commands before it are answered by well-formed replies with notifications
-- other than %exit between them, and then comes a well-formed reply, exactly one more command is
-- woken after these, it is the one that was queued, and Do returns to its caller the number of that
-- reply's header, its body line for line, and the flags and time of its terminator, with no error
-- if it ended with %end and with the body as the error's message if it ended with %error.
pub do_result-carried_out :
    (cc : Conn) (cmd : Bytes) (ss : List Segment) (b : Block)
    → cc.closed ≡ false
    → IsIdle cc
    → All IsCommand cc.queue
    → Fits ss cc.queue
    → unserved ss cc.queue ≡ []
    → IsReply b
    → (p : Pending) × ((carried_out cc cmd ss b).settled
        ≡ (cc.settled ++ served ss cc.queue) ++ p ∷ [])
      × (p.ticket ≡ cc.next_ticket)
      × ((carried_out cc cmd ss b).queue ≡ [])
      × (do_result (carried_out cc cmd ss b) p ≡ (reply_in b, error_in cmd b))
do_result-carried_out cc cmd ss b live i h f u r =
    let p = new_pending cc.next_ticket cmd in
    let queued : Conn = record cc {
      next_ticket = suc cc.next_ticket;
      queue = cc.queue ++ p ∷ [];
    } in
    let idle : IsIdle queued = record {
      seen = i.seen;
      started = i.started;
      no_block = i.no_block;
    } in
    let (settled, queue, _) =
      replies_in_order (ss ++ reply b ∷ []) queued idle
        (All-append IsCommand cc.queue (p ∷ []) h ((refl, refl), tt))
        (Fits-last ss cc.queue p b f u r) in
    rw (enqueue_open cc cmd live) (
      answered p b,
      settled
          ∙ ap (λ t. cc.settled ++ t) (served-last ss cc.queue p b f u)
          ∙ sym (append_assoc cc.settled (served ss cc.queue) (answered p b ∷ [])),
      refl,
      queue ∙ unserved-last ss cc.queue p b f u,
      do_result-block _ cc.next_ticket cmd b,
    )
