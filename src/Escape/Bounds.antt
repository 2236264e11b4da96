-- ===== src/Escape/Bounds.antt =====
-- Sizes and ranges of the escaping (internal/escape/escape.go).
use gotmucks.Base.{
  ℕ, zero, suc, ◌<◌, ◌≤◌, [], ◌∷◌, ◌≡◌, arith, Bytes, IsBytes, some, All, All-append, length,
}
use gotmucks.Escape.{octal_triple, unescape_from, unescape, escape_byte, escape}

-- No byte of a line break or another control byte.
abbrev pub IsLine : Bytes → Type 0
IsLine = All (λ c. b' ' ≤ c)

escape_byte-IsLine : (c : ℕ) → IsLine (escape_byte c)
unfolding escape_byte
escape_byte-IsLine c = ground arith

-- Escaped output holds no byte below space, so it stays on one line.
escape-IsLine : (s : Bytes) → IsLine (escape s)
unfolding escape
escape-IsLine [] = tt
escape-IsLine (c ∷ s) =
    All-append _ (escape_byte c) (escape s) (escape_byte-IsLine c) (escape-IsLine s)

octal_triple-lt : (s : Bytes) (b : ℕ) → octal_triple s ≡ some b → b < 256
unfolding octal_triple
octal_triple-lt s b h = ground arith

unescape_from-IsBytes : (k : ℕ) (s : Bytes) → IsBytes s → IsBytes (unescape_from k s)
unfolding unescape_from
unescape_from-IsBytes zero [] h = tt
unescape_from-IsBytes (suc k) [] h = tt
unescape_from-IsBytes (suc k) (c ∷ s) h = unescape_from-IsBytes k s h.1
unescape_from-IsBytes zero (c ∷ s) h =
    grind (arith, unescape_from-IsBytes 0 s h.1, unescape_from-IsBytes 3 s h.1, octal_triple-lt s)

-- Decoding bytes gives bytes: no escape stands for a number above 255.
unescape-IsBytes : (s : Bytes) → IsBytes s → IsBytes (unescape s)
unfolding unescape
unescape-IsBytes = unescape_from-IsBytes 0

length-unescape_from : (k : ℕ) (s : Bytes) → length (unescape_from k s) ≤ length s
unfolding unescape_from
length-unescape_from zero [] = omega arith
length-unescape_from (suc k) [] = omega arith
length-unescape_from (suc k) (c ∷ s) = omega (arith, length-unescape_from k s)
length-unescape_from zero (c ∷ s) =
    ground (arith, length-unescape_from 0 s, length-unescape_from 3 s)

-- The decoding is never longer than the text.
length-unescape : (s : Bytes) → length (unescape s) ≤ length s
unfolding unescape
length-unescape = length-unescape_from 0
