-- ===== src/Command/Sendable.antt =====
-- The checks of `Do` on a line of `DoArgs` (control.go).
use gotmucks.Base.{
  ℕ, suc, ◌<◌, true, false, List, [], ◌∷◌, ◌++◌, ◌≡◌, ◌≢◌, refl, arith, Bytes, none, ◌==◌,
  contains_byte, Bool-cases, inl, inr, All, All-append, append-nil, append_assoc, Lacks,
}
use gotmucks.Strings.{split, onto_head, join, index_any, trim_space-ne-nil, split-ne-nil}
use gotmucks.Command.{
  break_from, command_break, comment_start, check_line, is_blank, quote_all, args_line, line,
}
use gotmucks.Command.Quote.{
  safe_byte, needs_quoting, escape_unsafe, quote_token, quoted_newline, quote_part, more_parts,
  quote_parts, quote_arg,
}
use gotmucks.Command.Quote.Unbroken.{IsUnbroken, quote_arg-IsUnbroken}

-- Neither of the bytes that no line can carry.
abbrev IsClean : Bytes → Type 0
IsClean = All (λ c. (c ≢ b'\n') × (c ≢ 0))

-- A visible byte of ASCII that opens no comment.
abbrev Opens : Bytes → Type 0
Opens [] = ⊥
Opens (c ∷ s) = (b' ' < c) × (c < 0x80) × (c ≢ b'#')

abbrev AllClean : List Bytes → Type 0
AllClean = All IsClean

onto-AllClean :
    (c : ℕ) (ps : List Bytes) → c ≢ b'\n' → c ≢ 0 → AllClean ps → AllClean (onto_head c ps)
onto-AllClean c [] n z h = ground arith
onto-AllClean c (p ∷ ps) n z h = (((n, z), h.0), h.1)

split-AllClean : (s : Bytes) → Lacks 0 s → AllClean (split b'\n' s)
unfolding split
split-AllClean [] h = ground arith
split-AllClean (c ∷ s) h = ground (arith, split-AllClean s h.1, onto-AllClean c (split b'\n' s))

escape_unsafe-IsClean : (s : Bytes) → IsClean s → IsClean (escape_unsafe s)
unfolding escape_unsafe
escape_unsafe-IsClean [] h = tt
escape_unsafe-IsClean (c ∷ s) h = ground (arith, escape_unsafe-IsClean s h.1)

quote_token-IsClean : (s : Bytes) → IsClean s → IsClean (quote_token s)
unfolding quote_token
quote_token-IsClean s h =
    ground (arith, escape_unsafe-IsClean s h, All-append _ s (b'\'' ∷ []) h (omega arith))

quote_part-IsClean : (p : Bytes) → IsClean p → IsClean (quote_part p)
unfolding quote_part
quote_part-IsClean [] h = tt
quote_part-IsClean (c ∷ s) h = quote_token-IsClean (c ∷ s) h

more_parts-IsClean : (ps : List Bytes) → AllClean ps → IsClean (more_parts ps)
unfolding more_parts
more_parts-IsClean [] h = tt
more_parts-IsClean (p ∷ ps) h =
    All-append _ quoted_newline _ (omega arith)
      (All-append _ (quote_part p) _ (quote_part-IsClean p h.0) (more_parts-IsClean ps h.1))

quote_parts-IsClean : (ps : List Bytes) → AllClean ps → IsClean (quote_parts ps)
unfolding quote_parts
quote_parts-IsClean [] h = tt
quote_parts-IsClean (p ∷ ps) h =
    All-append _ (quote_part p) _ (quote_part-IsClean p h.0) (more_parts-IsClean ps h.1)

Lacks-IsClean : (s : Bytes) → contains_byte b'\n' s ≡ false → Lacks 0 s → IsClean s
unfolding contains_byte
Lacks-IsClean [] h z = tt
Lacks-IsClean (c ∷ s) h z = ground (arith, Lacks-IsClean s)

quote_arg-IsClean : (a : Bytes) → Lacks 0 a → IsClean (quote_arg a)
unfolding quote_arg
quote_arg-IsClean [] h = omega arith
quote_arg-IsClean (c ∷ s) h = elim (Bool-cases (contains_byte b'\n' (c ∷ s))) [
  | inl newline ↦ rw newline (quote_parts-IsClean _ (split-AllClean (c ∷ s) h))
  | inr one_line ↦ rw one_line (quote_token-IsClean (c ∷ s) (Lacks-IsClean (c ∷ s) one_line h))
]

safe-visible : (c : ℕ) → safe_byte c ≡ true → (b' ' < c) × (c < 0x80) × (c ≢ b'#')
unfolding safe_byte
safe-visible c h = ground arith

quote_token-Opens : (c : ℕ) (s rest : Bytes) → Opens (quote_token (c ∷ s) ++ rest)
unfolding quote_token needs_quoting escape_unsafe
quote_token-Opens c s rest = ground (arith, safe-visible c)

-- The first part holds a byte, or another part follows it.
abbrev Starts : List Bytes → Type 0
Starts [] = ⊥
Starts ((c ∷ p) ∷ ps) = Unit {0}
Starts ([] ∷ []) = ⊥
Starts ([] ∷ (p ∷ ps)) = Unit {0}

nil-Starts : (ps : List Bytes) → ps ≢ [] → Starts ([] ∷ ps)
nil-Starts [] n = absurd (n refl)
nil-Starts (p ∷ ps) n = tt

onto-Starts : (c : ℕ) (ps : List Bytes) → Starts (onto_head c ps)
onto-Starts c [] = tt
onto-Starts c (p ∷ ps) = tt

split-Starts : (c : ℕ) (s : Bytes) → Starts (split b'\n' (c ∷ s))
unfolding split
split-Starts c s = elim (Bool-cases (c == b'\n')) [
  | inl newline ↦ rw newline (nil-Starts _ (split-ne-nil b'\n' s))
  | inr other ↦ rw other (onto-Starts c (split b'\n' s))
]

-- The parts of a text with a newline begin with its first byte, or with the newline's own form.
quote_parts-Opens : (ps : List Bytes) (rest : Bytes) → Starts ps → Opens (quote_parts ps ++ rest)
unfolding quote_parts
quote_parts-Opens [] rest h = absurd h
quote_parts-Opens ([] ∷ []) rest h = absurd h
quote_parts-Opens ([] ∷ (p ∷ ps)) rest h = omega arith
quote_parts-Opens ((c ∷ s) ∷ ps) rest h =
    rw (append_assoc (quote_token (c ∷ s))) (quote_token-Opens c s (more_parts ps ++ rest))

quote_arg-Opens : (a rest : Bytes) → Opens (quote_arg a ++ rest)
unfolding quote_arg
quote_arg-Opens [] rest = omega arith
quote_arg-Opens (c ∷ s) rest = elim (Bool-cases (contains_byte b'\n' (c ∷ s))) [
  | inl newline ↦ rw newline (quote_parts-Opens (split b'\n' (c ∷ s)) rest (split-Starts c s))
  | inr one_line ↦ rw one_line (quote_token-Opens c s rest)
]

space-IsUnbroken : (s : Bytes) → IsUnbroken s → IsUnbroken (b' ' ∷ s)
unfolding break_from
space-IsUnbroken s u i start = u (suc i) true

nil-IsUnbroken : IsUnbroken []
unfolding break_from
nil-IsUnbroken i start = refl

join-IsUnbroken :
    (a : Bytes) (more : List Bytes) → IsUnbroken (join (b' ' ∷ []) (quote_all (a ∷ more)))
unfolding join quote_all
join-IsUnbroken a [] = rw (← append-nil (quote_arg a)) (quote_arg-IsUnbroken a [] nil-IsUnbroken)
join-IsUnbroken a (b ∷ more) =
    quote_arg-IsUnbroken a _ (space-IsUnbroken _ (join-IsUnbroken b more))

join-IsClean :
    (a : Bytes) (more : List Bytes)
    → All (Lacks 0) (a ∷ more)
    → IsClean (join (b' ' ∷ []) (quote_all (a ∷ more)))
unfolding join quote_all
join-IsClean a [] h = quote_arg-IsClean a h.0
join-IsClean a (b ∷ more) h =
    All-append _ (quote_arg a) _ (quote_arg-IsClean a h.0) ((omega arith), join-IsClean b more h.1)

join-Opens : (a : Bytes) (more : List Bytes) → Opens (join (b' ' ∷ []) (quote_all (a ∷ more)))
unfolding join quote_all
join-Opens a [] = rw (← append-nil (quote_arg a)) (quote_arg-Opens a [])
join-Opens a (b ∷ more) = quote_arg-Opens a _

index_any-IsClean : (s : Bytes) → IsClean s → index_any s (b'\n' ∷ 0 ∷ []) ≡ none
unfolding index_any
index_any-IsClean [] h = refl
index_any-IsClean (c ∷ s) h = ground (arith, index_any-IsClean s h.1)

check_line-passes : (s : Bytes) → Opens s → IsClean s → IsUnbroken s → check_line s ≡ none
unfolding check_line comment_start command_break is_blank
check_line-passes [] o h u = absurd o
check_line-passes (c ∷ s) o h u =
    ground (arith, trim_space-ne-nil c s o.0 o.1, index_any-IsClean (c ∷ s) h, u 0 true)

-- For arguments that hold any bytes but NUL, the line that DoArgs assembles passes every check of
-- Do: it is not blank, holds no newline and no NUL, opens no comment, and nothing in it begins a
-- second command.
pub args_line-passes :
    (a : Bytes) (more : List Bytes)
    → All (Lacks 0) (a ∷ more)
    → (s : Bytes) × (args_line (a ∷ more) ≡ line s) × (check_line s ≡ none)
unfolding args_line
args_line-passes a more h = (
  join (b' ' ∷ []) (quote_all (a ∷ more)),
  refl,
  check_line-passes _ (join-Opens a more) (join-IsClean a more h) (join-IsUnbroken a more),
)
