-- ===== src/Ctlparse/Shape.antt =====
-- What `Classify` makes of a line (internal/ctlparse/ctlparse.go).
use gotmucks.Base.{
  Bool, ◌&&◌, ◌⊎◌, inl, inr, sym, ap, ◌∙◌, subst, true, false, ◌++◌, Lacks, All, bytes_eq,
  bytes_eq_iff, codes, Bool-cases, ◌==◌, ◌≢◌, ◌↔◌, ◌≤◌, ℕ, [], ◌∷◌, ◌≡◌, refl, arith, Bytes, List,
}
use gotmucks.Strings.{is_digit, cut-append, cut_none, cut-found, cut}
use gotmucks.Ctlparse.{
  notification, is_known_notification, looks_like_notification_name, begin_kind, end_kind,
  error_kind, Line, plain, block_flags, block_fields, parse_block_args, block_line, by_name,
  with_name, classify, notifications, mem_bytes, name_shape,
}

block_flags-keeps :
    (l : Line) (fs : List Bytes)
    → ((block_flags l fs).raw ≡ l.raw)
      × ((block_flags l fs).kind ≡ l.kind)
      × ((block_flags l fs).malformed ≡ l.malformed)
unfolding block_flags
block_flags-keeps l fs = ground arith

block_line-raw : (l : Line) (args : Bytes) → (block_line l args).raw ≡ l.raw
unfolding block_line parse_block_args block_fields
block_line-raw l args = grind (arith, block_flags-keeps)

by_name-raw : (line name args : Bytes) → (by_name line name args).raw ≡ line
unfolding by_name
by_name-raw line name args = ground (
  arith,
  block_line-raw (record (plain line) { kind = begin_kind }) args,
  block_line-raw (record (plain line) { kind = end_kind }) args,
  block_line-raw (record (plain line) { kind = error_kind }) args,
)

with_name-raw : (line name args : Bytes) → (with_name line name args).raw ≡ line
unfolding with_name
with_name-raw line [] args = refl
with_name-raw line (c ∷ s) args = ground (arith, by_name-raw line (c ∷ s) args)

-- Whatever the line, the classified line carries it unchanged.
classify-raw : (line : Bytes) → (classify line).raw ≡ line
unfolding classify
classify-raw [] = refl
classify-raw (c ∷ s) = ground (arith, with_name-raw (c ∷ s) (cut b' ' s).before (cut b' ' s).after)

-- The line as a notification.
abbrev pub notifying : Bytes → Bytes → Bytes → Line
notifying line name args = record (plain line) { kind = notification; name = name; args = args }

-- A small letter, and then small letters and dashes.
abbrev pub IsName : Bytes → Type 0
IsName [] = ⊥
IsName (c ∷ s) = ((b'a' ≤ c) × (c ≤ b'z')) × All (λ d. ((b'a' ≤ d) × (d ≤ b'z')) ⊎ (d ≡ b'-')) s

-- A percent sign and a name that opens or closes no block, and then nothing, or a space and the
-- arguments.
pub record IsNotification (line name args : Bytes) : Type 0 where
  pub letters : IsName name
  pub no_begin : name ≢ codes "begin"
  pub no_end : name ≢ codes "end"
  pub no_error : name ≢ codes "error"
  pub form : ((line ≡ b'%' ∷ name) × (args ≡ [])) ⊎ (line ≡ b'%' ∷ name ++ b' ' ∷ args)

name_shape_iff :
    (s : Bytes) → (name_shape true s ≡ true) ↔ All (λ d. ((b'a' ≤ d) × (d ≤ b'z')) ⊎ (d ≡ b'-')) s
unfolding name_shape
name_shape_iff [] = ground arith
name_shape_iff (c ∷ s) = ground (arith, name_shape_iff s)

looks_like_iff : (s : Bytes) → (looks_like_notification_name s ≡ true) ↔ IsName s
unfolding looks_like_notification_name name_shape
looks_like_iff [] = ground arith
looks_like_iff (c ∷ s) = ground (arith, name_shape_iff s)

all_look : List Bytes → Bool
unfolding looks_like_notification_name
all_look [] = true
all_look (n ∷ ns) = looks_like_notification_name n && all_look ns

mem-all_look :
    (s : Bytes) (ns : List Bytes)
    → mem_bytes s ns ≡ true
    → all_look ns ≡ true
    → looks_like_notification_name s ≡ true
unfolding mem_bytes all_look
mem-all_look s [] h a = ground (arith, h)
mem-all_look s (n ∷ ns) h a = elim (Bool-cases (bytes_eq s n)) [
  | inl e ↦ ap looks_like_notification_name ((bytes_eq_iff s n).0 e) ∙ ground (arith, a)
  | inr e ↦ mem-all_look s ns (ground (arith, e, h)) (ground (arith, a))
]

-- A name that is known has the shape of one.
known_looks : (s : Bytes) → is_known_notification s ≡ true → looks_like_notification_name s ≡ true
unfolding is_known_notification
known_looks s h = mem-all_look s notifications h (unfold all_look name_shape in refl)

block_line-kind : (l : Line) (args : Bytes) → (block_line l args).kind ≡ l.kind
unfolding block_line parse_block_args block_fields
block_line-kind l args = grind (arith, block_flags-keeps)

-- The name is none of the three of blocks.
abbrev IsOther : Bytes → Type 0
IsOther name = (name ≢ codes "begin") × (name ≢ codes "end") × (name ≢ codes "error")

by_name-other :
    (line name args : Bytes) → IsOther name → by_name line name args ≡ notifying line name args
unfolding by_name
by_name-other line name args n = ground (
  arith,
  n.0,
  n.1,
  n.2,
  bytes_eq_iff name (codes "begin"),
  bytes_eq_iff name (codes "end"),
  bytes_eq_iff name (codes "error"),
)

by_name-IsOther :
    (line name args : Bytes) → (by_name line name args).kind ≡ notification → IsOther name
unfolding by_name
by_name-IsOther line name args h =
    let b = bytes_eq_iff name (codes "begin") in
    let e = bytes_eq_iff name (codes "end") in
    let r = bytes_eq_iff name (codes "error") in
    let kb = block_line-kind (record (plain line) { kind = begin_kind }) args in
    let ke = block_line-kind (record (plain line) { kind = end_kind }) args in
    let kr = block_line-kind (record (plain line) { kind = error_kind }) args in
    (
      (λ n. ground (arith, h, n, b, e, r, kb, ke, kr)),
      (λ n. ground (arith, h, n, b, e, r, kb, ke, kr)),
      (λ n. ground (arith, h, n, b, e, r, kb, ke, kr)),
    )

-- What the name and the rest, once cut, make a notification of.
with_name-kind :
    (line name args : Bytes)
    → (with_name line name args).kind ≡ notification
    → IsName name × IsOther name
unfolding with_name
with_name-kind line [] args h = absurd (ground (arith, h))
with_name-kind line (c ∷ s) args h = elim (Bool-cases (looks_like_notification_name (c ∷ s))) [
  | inl l ↦ ((looks_like_iff (c ∷ s)).0 l, by_name-IsOther line (c ∷ s) args (ground (arith, h, l)))
  | inr w ↦ absurd (ground (arith, h, w, known_looks (c ∷ s)))
]

with_name-notifying :
    (line name args : Bytes)
    → IsName name
    → IsOther name
    → with_name line name args ≡ notifying line name args
unfolding with_name is_digit
with_name-notifying line [] args n o = absurd n
with_name-notifying line (c ∷ s) args n o =
    ground (arith, (looks_like_iff (c ∷ s)).1 n, n.0, by_name-other line (c ∷ s) args o)

-- A name holds no space.
name-Lacks : (s : Bytes) → IsName s → Lacks b' ' s
name-Lacks [] h = absurd h
name-Lacks (c ∷ s) h = (ground (arith, h.0), rest s h.1)
  where
    rest : (s : Bytes) → All (λ d. ((b'a' ≤ d) × (d ≤ b'z')) ⊎ (d ≡ b'-')) s → Lacks b' ' s
    rest [] h = tt
    rest (c ∷ s) h = (ground (arith, h.0), rest s h.1)

-- A line of a percent sign and these pieces.
abbrev from_pieces : Bytes → Bytes → Line
from_pieces line s = with_name line (cut b' ' s).before (cut b' ' s).after

classify-percent : (s : Bytes) → classify (b'%' ∷ s) ≡ from_pieces (b'%' ∷ s) s
unfolding classify
classify-percent s = refl

classify-IsNotification :
    (line name args : Bytes)
    → IsNotification line name args
    → classify line ≡ notifying line name args
classify-IsNotification line name args h =
    let other : IsOther name = (h.no_begin, h.no_end, h.no_error) in
    elim h.form [
      | inl (e, a) ↦
          rw (e, a)
            (classify-percent name
              ∙ ap (λ p. with_name (b'%' ∷ name) p.before p.after)
                  (cut_none b' ' name (name-Lacks name h.letters))
              ∙ with_name-notifying (b'%' ∷ name) name [] h.letters other)
      | inr e ↦ rw e (
          classify-percent (name ++ b' ' ∷ args)
          ∙ ap (λ p. with_name (b'%' ∷ name ++ b' ' ∷ args) p.before p.after)
              (cut-append b' ' name args (name-Lacks name h.letters))
          ∙ with_name-notifying (b'%' ∷ name ++ b' ' ∷ args) name args h.letters other)
    ]

classify-pieces :
    (line : Bytes)
    → (classify line).kind ≡ notification
    → (s : Bytes) × (line ≡ b'%' ∷ s) × (classify line ≡ from_pieces line s)
unfolding classify
classify-pieces [] h = absurd (ground (arith, h))
classify-pieces (c ∷ s) h = elim (Bool-cases (c == b'%')) [
  | inl e ↦ (s, ground (arith, e), rw e refl)
  | inr e ↦ absurd (ground (arith, e, h))
]

cut-unfound :
    (b : ℕ) (s : Bytes) → (cut b s).found ≡ false → (s ≡ (cut b s).before) × ((cut b s).after ≡ [])
unfolding cut
cut-unfound b [] h = (refl, refl)
cut-unfound b (c ∷ s) h = ground (arith, cut-unfound b s)

cut-form :
    (s : Bytes)
    → ((s ≡ (cut b' ' s).before) × ((cut b' ' s).after ≡ []))
      ⊎ (s ≡ (cut b' ' s).before ++ b' ' ∷ (cut b' ' s).after)
cut-form s = elim (Bool-cases (cut b' ' s).found) [
  | inl e ↦ inr (cut-found b' ' s e)
  | inr e ↦ inl (cut-unfound b' ' s e)
]

-- A line of the kind of a notification is one, and carries its name and arguments.
pub classify-found :
    (line : Bytes)
    → (classify line).kind ≡ notification
    → (name : Bytes) × (args : Bytes) × IsNotification line name args
      × (classify line ≡ notifying line name args)
classify-found line h =
    let (s, p, q) = classify-pieces line h in
    let n = (cut b' ' s).before in
    let a = (cut b' ' s).after in
    let (letters, other) = with_name-kind line n a (sym (ap (λ l. l.kind) q) ∙ h) in
    let form : ((line ≡ b'%' ∷ n) × (a ≡ [])) ⊎ (line ≡ b'%' ∷ n ++ b' ' ∷ a) = elim (cut-form s) [
      | inl (e, z) ↦ inl (p ∙ ap (◌∷◌ b'%') e, z)
      | inr e ↦ inr (p ∙ ap (◌∷◌ b'%') e)
    ] in
    (
      n,
      a,
      record {
        letters = letters;
        no_begin = other.0;
        no_end = other.1;
        no_error = other.2;
        form = form;
      },
      q ∙ with_name-notifying line n a letters other,
    )

-- A line is classified as the notification of this name with these arguments exactly if it is a
-- percent sign and the name, and then nothing, with no arguments, or a space and the arguments; and
-- the name is a small letter and then small letters and dashes, and none of begin, end and error.
pub classify-IsNotification_iff :
    (line name args : Bytes)
    → (classify line ≡ notifying line name args) ↔ IsNotification line name args
classify-IsNotification_iff line name args = (
  (λ e.
      let (n, a, is, f) = classify-found line (ap (λ l. l.kind) e) in
      subst (λ t. IsNotification line t args) (ap (λ l. l.name) (sym f ∙ e))
        (subst (IsNotification line n) (ap (λ l. l.args) (sym f ∙ e)) is)),
  classify-IsNotification line name args,
)
