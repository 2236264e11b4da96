-- ===== src/Escape.antt =====
-- internal/escape/escape.go: the octal escaping that tmux applies to pane output in control mode.
-- `unescape` is generic over strings and byte slices in the source, and is one function here; so
-- `Unescape`, `UnescapeString` and `EscapeString` are the functions that they wrap. The index `i` of
-- a loop is the part of the text that is left, and the count of bytes that the index has already
-- been moved over; `dst` is the list of the bytes appended, in order.
pub mod RoundTrip
pub mod Bounds
use gotmucks.Base.{
  ℕ, zero, suc, true, false, ◌||◌, ◌+◌, ◌-◌, ◌*◌, ◌/◌, ◌%◌, [], ◌∷◌, ◌++◌, Bytes, ◌==◌, ltb,
  if◌then◌else◌, Option, none, some, ◌>>=◌,
}

-- `for j := i; j < i+n; j++`, over the digits that start the text; `none` where one is missing or
-- is no octal digit.
unfoldable pub octal_loop : ℕ → ℕ → Bytes → Option ℕ
octal_loop zero v s = some v
octal_loop (suc n) v [] = none
octal_loop (suc n) v (d ∷ s) =
    let rest = octal_loop n (v * 8 + (d - b'0')) s in
    if ltb d b'0' || ltb b'7' d then none else rest

unfoldable pub octal_triple : Bytes → Option ℕ
unfolding octal_loop
octal_triple s = do v ← octal_loop 3 0 s; if ltb 0xff v then none else some v

unescape_from : ℕ → Bytes → Bytes
unescape_from k [] = []
unescape_from (suc k) (c ∷ s) = unescape_from k s
unescape_from zero (c ∷ s) = elim (c == b'\\') [
  | false ↦ c ∷ unescape_from 0 s
  | true ↦ elim (octal_triple s) [
    | some b ↦ b ∷ unescape_from 3 s
    | none ↦ b'\\' ∷ unescape_from 0 s
  ]
]

unfoldable pub unescape : Bytes → Bytes
unfolding unescape_from octal_triple
unescape = unescape_from 0

-- What one round of `Escape` appends; `>>` and `&` bind as tightly as `*` in Go.
escape_byte : ℕ → Bytes
escape_byte c =
    if ltb c b' ' || c == b'\\'
    then b'\\' ∷ (b'0' + c / 64 % 8) ∷ (b'0' + c / 8 % 8) ∷ (b'0' + c % 8) ∷ []
    else c ∷ []

unfoldable pub escape : Bytes → Bytes
unfolding escape_byte
escape [] = []
escape (c ∷ s) = escape_byte c ++ escape s
