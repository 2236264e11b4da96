-- ===== src/Control/System.antt =====
-- The interleavings of a connection: the reader's lines, the commands that callers queue and
-- withdraw, taps, the grace timer, `Close`, and the end of the reader, in any order. Each step is
-- what one goroutine does under the lock, or alone.
pub mod Count
mod Invariant
pub mod Once
use gotmucks.Base.{
  ℕ, Bool, true, false, ◌||◌, List, [], ◌∷◌, ◌++◌, ◌≡◌, Bytes, Option, if◌then◌else◌, ◌==◌,
}
use gotmucks.Ids.{PaneId}
use gotmucks.Control.Blocks.{release_startup}
use gotmucks.Control.Queue.{enqueue, unqueue}
use gotmucks.Control.Reader.{handle_line}
use gotmucks.Control.Taps.{output, untap}
use gotmucks.Control.Teardown.{finish_reader}
use gotmucks.Control.{Conn, Pending, new_control_client}

-- The connection, and the tickets of the commands that their own callers took off the queue.
pub record System : Type 0 where
  pub conn : Conn
  pub withdrawn : List ℕ

abbrev pub is_queued : ℕ → List Pending → Bool
is_queued t [] = false
is_queued t (p ∷ ps) = p.ticket == t || is_queued t ps

-- The two flags that `Close` sets.
unfoldable pub begin_close : Conn → Conn
begin_close c = record c { closed = true; user_close = true }

pub data Step : System → System → Type 0 where
  reads :
      (s : System) (line : Bytes)
      → s.conn.done ≡ false
      → Step s (record s { conn = (handle_line s.conn line).0 })
  queues : (s : System) (cmd : Bytes) → Step s (record s { conn = (enqueue s.conn cmd).0 })
  withdraws :
      (s : System) (t : ℕ)
      → Step s (record {
        conn = unqueue s.conn t;
        withdrawn = (if is_queued t s.conn.queue then t ∷ s.withdrawn else s.withdrawn);
      })
  taps : (s : System) (id : PaneId) → Step s (record s { conn = (output s.conn id).0 })
  untaps : (s : System) (id : PaneId) → Step s (record s { conn = untap s.conn id })
  times_out : (s : System) → Step s (record s { conn = release_startup s.conn })
  closes : (s : System) → Step s (record s { conn = begin_close s.conn })
  finishes :
      (s : System) (read_err : Option Bytes) (stderr : Bytes)
      → s.conn.done ≡ false
      → Step s (record s { conn = finish_reader s.conn read_err stderr })

abbrev pub start : ℕ → System
start output_buffer = record { conn = new_control_client output_buffer; withdrawn = [] }

pub data Reach (n : ℕ) : System → Type 0 where
  here : Reach n (start n)
  next : {s t : System} → Reach n s → Step s t → Reach n t
