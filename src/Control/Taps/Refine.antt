-- ===== src/Control/Taps/Refine.antt =====
-- The taps of a connection, as one machine for each pane: what `deliverOutput`, `Output`, `Untap` and
-- a consumer do to a pane's tap is what the machine of that pane alone does.
use gotmucks.Base.{
  ℕ, Bool, true, false, ◌+◌, ◌≢◌, ◌≡◌, refl, sym, ap, subst, ◌∙◌, List, [], ◌∷◌, ◌++◌, Bytes,
  Option, none, some, Bool-cases, Option-cases, inl, inr, if◌then◌else◌, ltb, length,
}
use gotmucks.Base.Int.{ℤ}
use gotmucks.Ids.{PaneId, valid_id, pane_sigil}
use gotmucks.Control.{Conn, Tap}
use gotmucks.Control.Taps.{
  lookup_tap, update_tap, wrap64, send_tap, deliver_tap, deliver_output, output, untap,
}
use gotmucks.Control.Taps.Map.{
  TapList, IsMap, lookup-update_same, lookup-update_other, IsMap-update, lookup-delete_same,
  lookup-delete_other, IsMap-delete,
}

-- What is done to the taps.
pub data Use : Type 0 where
  delivers : PaneId → Bytes → Bool → ℤ → Use
  opens untaps receives : PaneId → Use

abbrev pub rest_of : List Bytes → List Bytes
rest_of [] = []
rest_of (x ∷ xs) = xs

-- A consumer takes what comes first out of a tap, if there is anything.
abbrev pub received : Tap → Tap
received t = record t { items = rest_of t.items }

abbrev receive_tap : PaneId → Option Tap → TapList → TapList
receive_tap id none ts = ts
receive_tap id (some t) ts = update_tap id (received t) ts

unfoldable pub use_taps : Conn → Use → Conn
use_taps c (delivers id bytes extended age) = deliver_output c id bytes extended age
use_taps c (opens id) = (output c id).0
use_taps c (untaps id) = untap c id
use_taps c (receives id) = record c { taps = receive_tap id (lookup_tap id c.taps) c.taps }

abbrev pub pane_of : Use → PaneId
pane_of (delivers id bytes extended age) = id
pane_of (opens id) = id
pane_of (untaps id) = id
pane_of (receives id) = id

-- An output for an open tap is kept where there is room, and otherwise counted; a tap that is closed
-- takes none.
abbrev pub offered : Bytes → Tap → Tap
offered bytes t =
    if t.closed
    then t
    else if ltb (length t.items) t.cap
    then record t { items = t.items ++ bytes ∷ []; drops = 0 }
    else record t { drops = wrap64 (t.drops + 1); total = wrap64 (t.total + 1) }

-- A tap that is there stays; a new one is empty, and closed where the connection is.
abbrev pub opened : ℕ → Bool → Option Tap → Tap
opened cap closed (some t) = t
opened cap closed none = record { items = []; cap = cap; drops = 0; total = 0; closed = closed }

abbrev pub mapped : (Tap → Tap) → Option Tap → Option Tap
mapped f none = none
mapped f (some t) = some (f t)

-- The machine of one pane; an identifier that is none opens and closes nothing.
unfoldable pub pane_step : ℕ → Bool → Use → Option Tap → Option Tap
pane_step cap closed (delivers id bytes extended age) v = mapped (offered bytes) v
pane_step cap closed (opens id) v = if valid_id id pane_sigil then some (opened cap closed v) else v
pane_step cap closed (untaps id) v = if valid_id id pane_sigil then none else v
pane_step cap closed (receives id) v = mapped received v

-- After the use, the taps are a map still, the machine of its pane has made its step, and no other
-- pane's tap is changed.
pub record Refines (c : Conn) (u : Use) (c' : Conn) : Type 0 where
  pub is_map : IsMap c'.taps
  pub steps :
      lookup_tap (pane_of u) c'.taps
      ≡ pane_step c.output_buffer c.closed u (lookup_tap (pane_of u) c.taps)
  pub others : (id : PaneId) → pane_of u ≢ id → lookup_tap id c'.taps ≡ lookup_tap id c.taps
  pub same_size : c'.output_buffer ≡ c.output_buffer
  pub same_flag : c'.closed ≡ c.closed

Refines-update :
    (c c' : Conn) (u : Use) (t : Tap)
    → IsMap c.taps
    → c'.taps ≡ update_tap (pane_of u) t c.taps
    → pane_step c.output_buffer c.closed u (lookup_tap (pane_of u) c.taps) ≡ some t
    → c'.output_buffer ≡ c.output_buffer
    → c'.closed ≡ c.closed
    → Refines c u c'
Refines-update c c' u t m e s b f = record {
  is_map = subst IsMap (sym e) (IsMap-update (pane_of u) t c.taps m);
  steps = ap (lookup_tap (pane_of u)) e ∙ lookup-update_same (pane_of u) t c.taps ∙ sym s;
  others = λ id n. ap (lookup_tap id) e ∙ lookup-update_other (pane_of u) id t c.taps n;
  same_size = b;
  same_flag = f;
}

pub Refines-same :
    (c c' : Conn) (u : Use)
    → IsMap c.taps
    → c'.taps ≡ c.taps
    → pane_step c.output_buffer c.closed u (lookup_tap (pane_of u) c.taps)
      ≡ lookup_tap (pane_of u) c.taps
    → c'.output_buffer ≡ c.output_buffer
    → c'.closed ≡ c.closed
    → Refines c u c'
Refines-same c c' u m e s b f = record {
  is_map = subst IsMap (sym e) m;
  steps = ap (lookup_tap (pane_of u)) e ∙ sym s;
  others = λ id n. ap (lookup_tap id) e;
  same_size = b;
  same_flag = f;
}

-- The connection after a delivery, from the tap that is found.
delivered :
    (c : Conn) (id : PaneId) (bytes : Bytes) (ext : Bool) (age : ℤ) (t : Tap)
    → lookup_tap id c.taps ≡ some t
    → t.closed ≡ false
    → ((deliver_output c id bytes ext age).taps ≡ update_tap id (offered bytes t) c.taps)
      × ((deliver_output c id bytes ext age).output_buffer ≡ c.output_buffer)
      × ((deliver_output c id bytes ext age).closed ≡ c.closed)
unfolding deliver_output deliver_tap send_tap
delivered c id bytes ext age t l o = elim (Bool-cases (ltb (length t.items) t.cap)) [
  | inr full ↦ rw (l, o, full) (refl, refl, refl)
  | inl room ↦ elim (Bool-cases (ltb 0 t.drops)) [
    | inl some_lost ↦ rw (l, o, room, some_lost) (refl, refl, refl)
    | inr none_lost ↦ rw (l, o, room, none_lost) (refl, refl, refl)
  ]
]

undelivered :
    (c : Conn) (id : PaneId) (bytes : Bytes) (ext : Bool) (age : ℤ) (t : Tap)
    → lookup_tap id c.taps ≡ some t
    → t.closed ≡ true
    → ((deliver_output c id bytes ext age).taps ≡ c.taps)
      × ((deliver_output c id bytes ext age).output_buffer ≡ c.output_buffer)
      × ((deliver_output c id bytes ext age).closed ≡ c.closed)
unfolding deliver_output deliver_tap send_tap
undelivered c id bytes ext age t l o = rw (l, o) (refl, refl, refl)

untapped :
    (c : Conn) (id : PaneId) (bytes : Bytes) (ext : Bool) (age : ℤ)
    → lookup_tap id c.taps ≡ none
    → ((deliver_output c id bytes ext age).taps ≡ c.taps)
      × ((deliver_output c id bytes ext age).output_buffer ≡ c.output_buffer)
      × ((deliver_output c id bytes ext age).closed ≡ c.closed)
unfolding deliver_output deliver_tap
untapped c id bytes ext age l = rw l (refl, refl, refl)

open_kept : (b : Bytes) (t : Tap) → t.closed ≡ true → offered b t ≡ t
open_kept b t e = rw e refl

pub Refines-delivers :
    (c : Conn) (id : PaneId) (bytes : Bytes) (ext : Bool) (age : ℤ)
    → IsMap c.taps
    → Refines c (delivers id bytes ext age) (deliver_output c id bytes ext age)
unfolding pane_step
Refines-delivers c id bytes ext age m = elim (Option-cases (lookup_tap id c.taps)) [
  | inl l ↦
      let d = untapped c id bytes ext age l in
      Refines-same c _ (delivers id bytes ext age) m d.0 (ap (mapped (offered bytes)) l ∙ sym l) d.1
        d.2
  | inr (t, l) ↦ elim (Bool-cases t.closed) [
    | inl shut ↦
        let d = undelivered c id bytes ext age t l shut in
        Refines-same c _ (delivers id bytes ext age) m d.0
          (ap (mapped (offered bytes)) l ∙ ap some (open_kept bytes t shut) ∙ sym l) d.1 d.2
    | inr open_now ↦
        let d = delivered c id bytes ext age t l open_now in
        Refines-update c _ (delivers id bytes ext age) (offered bytes t) m d.0
          (ap (mapped (offered bytes)) l) d.1 d.2
  ]
]

pub Refines-receives :
    (c : Conn) (id : PaneId) → IsMap c.taps → Refines c (receives id) (use_taps c (receives id))
unfolding pane_step use_taps
Refines-receives c id m = elim (Option-cases (lookup_tap id c.taps)) [
  | inl l ↦ Refines-same c _ (receives id) m (rw l refl) (ap (mapped received) l ∙ sym l) refl refl
  | inr (t, l) ↦
      Refines-update c _ (receives id) (received t) m (rw l refl) (ap (mapped received) l) refl refl
]

pub Refines-untaps : (c : Conn) (id : PaneId) → IsMap c.taps → Refines c (untaps id) (untap c id)
unfolding pane_step untap
Refines-untaps c id m = elim (Bool-cases (valid_id id pane_sigil)) [
  | inr bad ↦ Refines-same c _ (untaps id) m (rw bad refl) (rw bad refl) (rw bad refl) (rw bad refl)
  | inl good ↦ rw good (record {
    is_map = IsMap-delete id c.taps m;
    steps =
        lookup-delete_same id c.taps m
        ∙ sym (ap (λ b. if b then none else lookup_tap id c.taps) good);
    others = λ j n. lookup-delete_other id j c.taps n;
    same_size = refl;
    same_flag = refl;
  })
]
