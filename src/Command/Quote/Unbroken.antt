-- ===== src/Command/Quote/Unbroken.antt =====
-- What `commandBreak` sees of a quoted argument (control.go, control_cmds.go).
use gotmucks.Base.{
  ℕ, suc, Bool, true, false, List, [], ◌∷◌, ◌++◌, ◌≡◌, refl, arith, Bytes, none, contains_byte,
  Bool-cases, inl, inr, append_assoc,
}
use gotmucks.Strings.{split}
use gotmucks.Command.{goes_on, scan_byte, break_from}
use gotmucks.Command.Quote.{
  safe_byte, needs_quoting, escape_unsafe, quote_token, quoted_newline, quote_part, more_parts,
  quote_parts, quote_arg,
}

-- Outside quotes, from any index, nothing in the text breaks the line.
abbrev pub IsUnbroken : Bytes → Type 0
IsUnbroken s = (i : ℕ) (start : Bool) → break_from 0 i 0 start s ≡ none

scan_safe : (start : Bool) (c : ℕ) → safe_byte c ≡ true → scan_byte 0 start c ≡ goes_on 0 0 false
unfolding scan_byte safe_byte
scan_safe start c h = ground arith

cons_safe : (c : ℕ) (s : Bytes) → safe_byte c ≡ true → IsUnbroken s → IsUnbroken (c ∷ s)
unfolding break_from
cons_safe c s h u i start = ground (arith, scan_safe start c h, u (suc i) false)

cons_escaped : (c : ℕ) (s : Bytes) → IsUnbroken s → IsUnbroken (b'\\' ∷ c ∷ s)
unfolding break_from
cons_escaped c s u i start = u (suc (suc i)) false

plain-IsUnbroken :
    (s rest : Bytes) → needs_quoting s ≡ false → IsUnbroken rest → IsUnbroken (s ++ rest)
unfolding needs_quoting
plain-IsUnbroken [] rest h u = u
plain-IsUnbroken (c ∷ s) rest h u = elim (Bool-cases (safe_byte c)) [
  | inl safe ↦ cons_safe c (s ++ rest) safe (plain-IsUnbroken s rest (ground arith) u)
  | inr unsafe ↦ absurd (ground arith)
]

escape_unsafe-IsUnbroken : (s rest : Bytes) → IsUnbroken rest → IsUnbroken (escape_unsafe s ++ rest)
unfolding escape_unsafe
escape_unsafe-IsUnbroken [] rest u = u
escape_unsafe-IsUnbroken (c ∷ s) rest u = elim (Bool-cases (safe_byte c)) [
  | inl safe ↦ rw safe (cons_safe c _ safe (escape_unsafe-IsUnbroken s rest u))
  | inr unsafe ↦ rw unsafe (cons_escaped c _ (escape_unsafe-IsUnbroken s rest u))
]

-- Inside single quotes, up to the closing one.
in_quotes :
    (s rest : Bytes) (i : ℕ)
    → contains_byte b'\'' s ≡ false
    → IsUnbroken rest
    → break_from 0 i b'\'' false (s ++ b'\'' ∷ rest) ≡ none
unfolding break_from contains_byte scan_byte
in_quotes [] rest i h u = u (suc i) false
in_quotes (c ∷ s) rest i h u = ground (arith, in_quotes s rest (suc i))

quoted-IsUnbroken :
    (s rest : Bytes)
    → contains_byte b'\'' s ≡ false
    → IsUnbroken rest
    → IsUnbroken (b'\'' ∷ (s ++ b'\'' ∷ rest))
unfolding break_from scan_byte
quoted-IsUnbroken s rest h u i start = in_quotes s rest (suc i) h u

quote_token-IsUnbroken : (s rest : Bytes) → IsUnbroken rest → IsUnbroken (quote_token s ++ rest)
unfolding quote_token
quote_token-IsUnbroken s rest u = elim (Bool-cases (needs_quoting s)) [
  | inr plain ↦ rw plain (plain-IsUnbroken s rest plain u)
  | inl quotes ↦ elim (Bool-cases (contains_byte b'\'' s)) [
    | inl escapes ↦ rw (quotes, escapes) (escape_unsafe-IsUnbroken s rest u)
    | inr none_inside ↦
        rw (quotes, none_inside, append_assoc s (b'\'' ∷ []) rest)
          (quoted-IsUnbroken s rest none_inside u)
  ]
]

quote_part-IsUnbroken : (p rest : Bytes) → IsUnbroken rest → IsUnbroken (quote_part p ++ rest)
unfolding quote_part
quote_part-IsUnbroken [] rest u = u
quote_part-IsUnbroken (c ∷ s) rest u = quote_token-IsUnbroken (c ∷ s) rest u

newline-IsUnbroken : (rest : Bytes) → IsUnbroken rest → IsUnbroken (quoted_newline ++ rest)
unfolding break_from scan_byte
newline-IsUnbroken rest u i start = u (suc (suc (suc (suc i)))) false

more_parts-IsUnbroken :
    (ps : List Bytes) (rest : Bytes) → IsUnbroken rest → IsUnbroken (more_parts ps ++ rest)
unfolding more_parts
more_parts-IsUnbroken [] rest u = u
more_parts-IsUnbroken (p ∷ ps) rest u =
    rw
      (
        append_assoc quoted_newline (quote_part p ++ more_parts ps) rest,
        append_assoc (quote_part p),
      )
      (newline-IsUnbroken _ (quote_part-IsUnbroken p _ (more_parts-IsUnbroken ps rest u)))

quote_parts-IsUnbroken :
    (ps : List Bytes) (rest : Bytes) → IsUnbroken rest → IsUnbroken (quote_parts ps ++ rest)
unfolding quote_parts
quote_parts-IsUnbroken [] rest u = u
quote_parts-IsUnbroken (p ∷ ps) rest u =
    rw (append_assoc (quote_part p)) (quote_part-IsUnbroken p _ (more_parts-IsUnbroken ps rest u))

-- Whatever bytes an argument holds, its quoted form in front of a text that does not break a line
-- outside quotes, whatever the index, makes a text that does not break it either.
pub quote_arg-IsUnbroken : (a rest : Bytes) → IsUnbroken rest → IsUnbroken (quote_arg a ++ rest)
unfolding quote_arg
quote_arg-IsUnbroken [] rest u = quoted-IsUnbroken [] rest (unfold contains_byte in refl) u
quote_arg-IsUnbroken (c ∷ s) rest u = elim (Bool-cases (contains_byte b'\n' (c ∷ s))) [
  | inl newline ↦ rw newline (quote_parts-IsUnbroken (split b'\n' (c ∷ s)) rest u)
  | inr one_line ↦ rw one_line (quote_token-IsUnbroken (c ∷ s) rest u)
]
