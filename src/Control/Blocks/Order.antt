-- ===== src/Control/Blocks/Order.antt =====
-- The commands of a connection in one line, woken, then bound to the open block, then queued, and what
-- the operations on blocks do to that line (control_reader.go).
use gotmucks.Base.{
  ℕ, Bool, false, List, [], ◌∷◌, ◌++◌, ◌≡◌, refl, ap, arith, Bytes, Option, none, some,
  if◌then◌else◌, Bool-cases, inl, inr,
}
use gotmucks.Ctlparse.{Line}
use gotmucks.Control.{Conn, Pending, Reason, cannot_be_answered}
use gotmucks.Control.Blocks.{
  end_current, end_block, bind_head, begin_block, data_line, fail_first, fail_head,
  begin_unnumbered_block, answer,
}

abbrev pub tickets : List Pending → List ℕ
tickets [] = []
tickets (p ∷ ps) = p.ticket ∷ tickets ps

-- The command that the open block answers, if it answers one.
abbrev pub bound : Option Pending → List ℕ
bound none = []
bound (some p) = if p.orphan then [] else p.ticket ∷ []

abbrev pub order : Conn → List ℕ
order c = tickets c.settled ++ (bound c.current ++ tickets c.queue)

abbrev pub AllCommands : List Pending → Type 0
AllCommands [] = Unit
AllCommands (p ∷ ps) = (p.orphan ≡ false) × AllCommands ps

-- What the operations on lines keep: the line of commands, that all of them are commands, and how
-- many tickets were given out.
pub record Orders (before after : Conn) : Type 0 where
  pub same : order after ≡ order before
  pub commands : AllCommands after.queue
  pub given : after.next_ticket ≡ before.next_ticket
  pub closed : after.closed ≡ before.closed
  pub done : after.done ≡ before.done

pub tickets-append : (ps qs : List Pending) → tickets (ps ++ qs) ≡ tickets ps ++ tickets qs
tickets-append [] qs = refl
tickets-append (p ∷ ps) qs = ap (◌∷◌ p.ticket) (tickets-append ps qs)

-- A command that moves from the head of what follows to the end of what was woken.
wake :
    (ps : List Pending) (p : Pending) (rest : List ℕ)
    → tickets (ps ++ p ∷ []) ++ rest ≡ tickets ps ++ (p.ticket ∷ rest)
wake [] p rest = refl
wake (q ∷ ps) p rest = ap (◌∷◌ q.ticket) (wake ps p rest)

end_current-Orders :
    (c : Conn) (cl : Line) (failed : Bool) (o : Option Pending)
    → c.current ≡ o
    → AllCommands c.queue
    → Orders c (end_current c cl failed o)
unfolding end_current
end_current-Orders c cl failed none e h = ground arith
end_current-Orders c cl failed (some p) e h = elim (Bool-cases p.orphan) [
  | inl orphan ↦ ground arith
  | inr command ↦ ground (arith, wake c.settled (answer p cl failed) (tickets c.queue))
]

pub end_block-Orders :
    (c : Conn) (cl : Line) (failed : Bool) → AllCommands c.queue → Orders c (end_block c cl failed)
unfolding end_block
end_block-Orders c cl failed h = end_current-Orders c cl failed c.current refl h

bind_head-Orders :
    (c : Conn) (cl : Line) (q : List Pending)
    → c.current ≡ none
    → c.queue ≡ q
    → AllCommands c.queue
    → Orders c (bind_head c cl q)
unfolding bind_head
bind_head-Orders c cl [] e eq h = ground arith
bind_head-Orders c cl (p ∷ rest) e eq h = ground arith

pub begin_block-Orders :
    (c : Conn) (cl : Line) → c.current ≡ none → AllCommands c.queue → Orders c (begin_block c cl)
unfolding begin_block
begin_block-Orders c cl e h = ground (arith, bind_head-Orders c cl c.queue e refl h)

fail_first-Orders :
    (c : Conn) (line : Bytes) (why : Reason) (q : List Pending)
    → c.current ≡ none
    → c.queue ≡ q
    → AllCommands c.queue
    → Orders c (fail_first c line why q) × ((fail_first c line why q).current ≡ none)
unfolding fail_first
fail_first-Orders c line why [] e eq h = ground arith
fail_first-Orders c line why (p ∷ rest) e eq h =
    let failed : Pending = record p { fault = some (cannot_be_answered p.cmd line why) } in
    ground (arith, wake c.settled failed (tickets rest))

pub fail_head-Orders :
    (c : Conn) (line : Bytes) (why : Reason)
    → c.current ≡ none
    → AllCommands c.queue
    → Orders c (fail_head c line why) × ((fail_head c line why).current ≡ none)
unfolding fail_head
fail_head-Orders c line why e h = fail_first-Orders c line why c.queue e refl h

pub begin_unnumbered_block-Orders :
    (c : Conn) → c.current ≡ none → AllCommands c.queue → Orders c (begin_unnumbered_block c)
unfolding begin_unnumbered_block
begin_unnumbered_block-Orders c e h = ground arith

pub data_line-Orders : (c : Conn) (line : Bytes) → AllCommands c.queue → Orders c (data_line c line)
unfolding data_line
data_line-Orders c line h = ground arith
