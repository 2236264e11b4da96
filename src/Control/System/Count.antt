-- ===== src/Control/System/Count.antt =====
-- How often a ticket stands among the commands of a connection.
use gotmucks.Base.{
  ℕ, ◌+◌, List, [], ◌∷◌, ◌++◌, ◌≡◌, refl, ap, ◌∙◌, arith, Option, none, some, if◌then◌else◌, ◌==◌,
}
use gotmucks.Control.Blocks.Order.{order, tickets, bound, AllCommands}
use gotmucks.Control.Queue.{remove_ticket}
use gotmucks.Control.Teardown.{waiting, callers}
use gotmucks.Control.{Conn, Pending}
use gotmucks.Control.System.{is_queued}

abbrev pub count : ℕ → List ℕ → ℕ
count t [] = 0
count t (x ∷ xs) = (if x == t then 1 else 0) + count t xs

pub count-append : (t : ℕ) (xs ys : List ℕ) → count t (xs ++ ys) ≡ count t xs + count t ys
count-append t [] ys = omega arith
count-append t (x ∷ xs) ys = omega (arith, count-append t xs ys)

-- How often a ticket is among the commands of the connection.
abbrev pub held : ℕ → Conn → ℕ
held t c = count t (tickets c.settled) + (count t (bound c.current) + count t (tickets c.queue))

pub held-order : (t : ℕ) (c : Conn) → count t (order c) ≡ held t c
held-order t c =
    count-append t (tickets c.settled) _
    ∙ ap (λ n. count t (tickets c.settled) + n) (count-append t (bound c.current) (tickets c.queue))

pub remove-AllCommands :
    (t : ℕ) (ps : List Pending) → AllCommands ps → AllCommands (remove_ticket t ps)
unfolding remove_ticket
remove-AllCommands t [] h = tt
remove-AllCommands t (p ∷ ps) h = ground (arith, remove-AllCommands t ps h.1)

pub remove-count :
    (t u : ℕ) (ps : List Pending)
    → count u (tickets (remove_ticket t ps))
        + (if is_queued t ps then (if t == u then 1 else 0) else 0)
      ≡ count u (tickets ps)
unfolding remove_ticket
remove-count t u [] = refl
remove-count t u (p ∷ ps) = ground (arith, remove-count t u ps)

pub callers-commands : (ps : List Pending) → AllCommands ps → callers ps ≡ ps
unfolding callers
callers-commands [] h = refl
callers-commands (p ∷ ps) h = ground (arith, callers-commands ps h.1)

pub callers-count :
    (t : ℕ) (ps : List Pending) (p : Pending)
    → AllCommands ps
    → count t (tickets (callers (ps ++ p ∷ [])))
      ≡ count t (if p.orphan then [] else p.ticket ∷ []) + count t (tickets ps)
unfolding callers
callers-count t [] p h = ground arith
callers-count t (q ∷ ps) p h = ground (arith, callers-count t ps p h.1)

-- The commands that the end of the reader wakes are those that were bound or queued.
pub waiting-count :
    (t : ℕ) (queue : List Pending) (o : Option Pending)
    → AllCommands queue
    → count t (tickets (callers (waiting queue o))) ≡ count t (bound o) + count t (tickets queue)
unfolding waiting
waiting-count t queue none h = rw (callers-commands queue h) (omega arith)
waiting-count t queue (some p) h = callers-count t queue p h
