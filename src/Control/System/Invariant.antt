-- ===== src/Control/System/Invariant.antt =====
-- The invariant of the interleavings (control.go, control_reader.go).
use gotmucks.Base.{
  ℕ, suc, ◌+◌, true, false, List, [], ◌∷◌, ◌++◌, ◌≡◌, refl, sym, ap, ◌∙◌, arith, Bytes, Option,
  none, if◌then◌else◌, ◌==◌, ltb, Bool-cases, inl, inr,
}
use gotmucks.Ids.{PaneId}
use gotmucks.Control.Blocks.Order.{tickets, AllCommands, tickets-append}
use gotmucks.Control.Queue.{enqueue, unqueue, remove_ticket}
use gotmucks.Control.Reader.{handle_line}
use gotmucks.Control.Reader.Order.{handle_line-Orders}
use gotmucks.Control.Taps.{output, untap}
use gotmucks.Control.Teardown.{finish_reader, waiting, callers}
use gotmucks.Control.{Conn, Pending, new_pending, new_control_client}
use gotmucks.Control.System.{
  System, is_queued, begin_close, Step, reads, queues, withdraws, taps, untaps, times_out, closes,
  finishes, Reach, here, next,
}
use gotmucks.Control.System.Count.{
  count, count-append, held, held-order, remove-AllCommands, remove-count, waiting-count,
}

pub record Inv (s : System) : Type 0 where
  pub once :
      (t : ℕ) → held t s.conn + count t s.withdrawn ≡ (if ltb t s.conn.next_ticket then 1 else 0)
  pub commands : AllCommands s.conn.queue
  pub ended :
      s.conn.done ≡ true → (s.conn.queue ≡ []) × (s.conn.current ≡ none) × (s.conn.closed ≡ true)

clash : true ≡ false → ⊥
clash e = cc

-- A step that keeps what is held and how many tickets were given out.
keeps-once :
    (s : System) (c : Conn)
    → ((t : ℕ) → held t c ≡ held t s.conn)
    → c.next_ticket ≡ s.conn.next_ticket
    → Inv s
    → (t : ℕ) → held t c + count t s.withdrawn ≡ (if ltb t c.next_ticket then 1 else 0)
keeps-once s c h g v t =
    ap (λ n. n + count t s.withdrawn) (h t) ∙ v.once t ∙ ap (λ n. if ltb t n then 1 else 0) (sym g)

reads-Inv :
    (s : System) (line : Bytes)
    → s.conn.done ≡ false
    → Inv s
    → Inv (record s { conn = (handle_line s.conn line).0 })
reads-Inv s line unfinished v =
    let o = handle_line-Orders s.conn line v.commands in
    let c = (handle_line s.conn line).0 in
    record {
      once =
          keeps-once s c (λ t. sym (held-order t c) ∙ ap (count t) o.same ∙ held-order t s.conn)
            o.given v;
      commands = o.commands;
      ended = λ d. absurd (clash (sym d ∙ o.done ∙ unfinished));
    }

AllCommands-concat :
    (ps : List Pending) (p : Pending)
    → AllCommands ps
    → p.orphan ≡ false
    → AllCommands (ps ++ p ∷ [])
AllCommands-concat [] p h e = (e, tt)
AllCommands-concat (q ∷ ps) p h e = (h.0, AllCommands-concat ps p h.1 e)

-- The connection with one more command at the end of its queue.
abbrev queued : Conn → Bytes → Conn
queued c cmd = record c {
  next_ticket = suc c.next_ticket;
  queue = c.queue ++ new_pending c.next_ticket cmd ∷ [];
}

enqueue_shut : (c : Conn) (cmd : Bytes) → c.closed ≡ true → (enqueue c cmd).0 ≡ c
unfolding enqueue
enqueue_shut c cmd e = ground arith

enqueue_live : (c : Conn) (cmd : Bytes) → c.closed ≡ false → (enqueue c cmd).0 ≡ queued c cmd
unfolding enqueue
enqueue_live c cmd e = ground arith

queued-held :
    (t : ℕ) (c : Conn) (cmd : Bytes)
    → held t (queued c cmd) ≡ held t c + (if c.next_ticket == t then 1 else 0)
queued-held t c cmd =
    let new = new_pending c.next_ticket cmd in
    let longer = tickets-append c.queue (new ∷ []) in
    rw (longer, count-append t (tickets c.queue)) (omega arith)

queues-Inv : (s : System) (cmd : Bytes) → Inv s → Inv (record s { conn = (enqueue s.conn cmd).0 })
queues-Inv s cmd v = elim (Bool-cases s.conn.closed) [
  | inl shut ↦ rw (enqueue_shut s.conn cmd shut) v
  | inr live ↦ rw (enqueue_live s.conn cmd live) (record {
    once = λ t. ground (arith, v.once t, queued-held t s.conn cmd);
    commands = AllCommands-concat s.conn.queue (new_pending s.conn.next_ticket cmd) v.commands refl;
    ended = λ d. absurd (clash (sym (v.ended d).2 ∙ live));
  })
]

unqueue-Inv :
    (s : System) (t : ℕ)
    → Inv s
    → Inv (record {
      conn = unqueue s.conn t;
      withdrawn = (if is_queued t s.conn.queue then t ∷ s.withdrawn else s.withdrawn);
    })
unfolding unqueue
unqueue-Inv s t v = record {
  once = λ u. ground (arith, v.once u, remove-count t u s.conn.queue);
  commands = remove-AllCommands t s.conn.queue v.commands;
  ended = λ d. (ap (remove_ticket t) (v.ended d).0, (v.ended d).1, (v.ended d).2);
}

finish-Inv :
    (s : System) (read_err : Option Bytes) (stderr : Bytes)
    → Inv s
    → Inv (record s { conn = finish_reader s.conn read_err stderr })
unfolding finish_reader
finish-Inv s read_err stderr v = record {
  once = λ t.
      let more = callers (waiting s.conn.queue s.conn.current) in
      rw
        (tickets-append s.conn.settled more, count-append t (tickets s.conn.settled) (tickets more))
        (omega (arith, v.once t, waiting-count t s.conn.queue s.conn.current v.commands));
  commands = tt;
  ended = λ d. (refl, refl, refl);
}

-- A step that touches no command.
other-Inv :
    (s : System) (c : Conn)
    → c.queue ≡ s.conn.queue
    → c.current ≡ s.conn.current
    → c.settled ≡ s.conn.settled
    → c.next_ticket ≡ s.conn.next_ticket
    → (c.done ≡ true → s.conn.done ≡ true)
    → (s.conn.closed ≡ true → c.closed ≡ true)
    → Inv s
    → Inv (record s { conn = c })
other-Inv s c q u w n d e v = record {
  once = keeps-once s c (λ t. cc (q, u, w)) n v;
  commands = rw q v.commands;
  ended = λ h. (q ∙ (v.ended (d h)).0, u ∙ (v.ended (d h)).1, e (v.ended (d h)).2);
}

output-same :
    (c : Conn) (id : PaneId)
    → ((output c id).0.queue ≡ c.queue)
      × ((output c id).0.current ≡ c.current)
      × ((output c id).0.settled ≡ c.settled)
      × ((output c id).0.next_ticket ≡ c.next_ticket)
      × ((output c id).0.done ≡ c.done)
      × ((output c id).0.closed ≡ c.closed)
unfolding output
output-same c id = ground arith

untap-same :
    (c : Conn) (id : PaneId)
    → ((untap c id).queue ≡ c.queue)
      × ((untap c id).current ≡ c.current)
      × ((untap c id).settled ≡ c.settled)
      × ((untap c id).next_ticket ≡ c.next_ticket)
      × ((untap c id).done ≡ c.done)
      × ((untap c id).closed ≡ c.closed)
unfolding untap
untap-same c id = ground arith

Step-Inv : {s t : System} → Step s t → Inv s → Inv t
unfolding begin_close
Step-Inv (reads s line h) v = reads-Inv s line h v
Step-Inv (queues s cmd) v = queues-Inv s cmd v
Step-Inv (withdraws s t) v = unqueue-Inv s t v
Step-Inv (taps s id) v =
    let e = output-same s.conn id in
    other-Inv s _ e.0 e.1 e.2 e.3 (λ d. sym e.4 ∙ d) (λ k. e.5 ∙ k) v
Step-Inv (untaps s id) v =
    let e = untap-same s.conn id in
    other-Inv s _ e.0 e.1 e.2 e.3 (λ d. sym e.4 ∙ d) (λ k. e.5 ∙ k) v
Step-Inv (times_out s) v = other-Inv s _ refl refl refl refl (λ d. d) (λ k. k) v
Step-Inv (closes s) v = other-Inv s _ refl refl refl refl (λ d. d) (λ k. refl) v
Step-Inv (finishes s read_err stderr h) v = finish-Inv s read_err stderr v

pub Reach-Inv : {n : ℕ} {s : System} → Reach n s → Inv s
unfolding new_control_client
Reach-Inv here = record {
  once = λ t. ground arith;
  commands = tt;
  ended = λ d. absurd (clash (sym d));
}
Reach-Inv (next r st) = Step-Inv st (Reach-Inv r)
