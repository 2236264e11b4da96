-- ===== src/Escape/RoundTrip.antt =====
-- internal/escape/escape.go: the two directions together.
use gotmucks.Base.{
  ◌+◌, ◌/◌, ◌%◌, ◌<◌, ℕ, [], ◌∷◌, ◌++◌, ◌≡◌, refl, ap, ◌∙◌, arith, Bytes, some, Lacks,
}
use gotmucks.Escape.{octal_triple, unescape_from, unescape, escape_byte, escape}

octal_triple-digits :
    (c : ℕ) (rest : Bytes)
    → c < 256
    → octal_triple ((b'0' + c / 64 % 8) ∷ (b'0' + c / 8 % 8) ∷ (b'0' + c % 8) ∷ rest) ≡ some c
unfolding octal_triple
octal_triple-digits c rest h = ground arith

unescape-escape_byte :
    (c : ℕ) (rest : Bytes) → unescape_from 0 (escape_byte c ++ rest) ≡ c ∷ unescape_from 0 rest
unfolding unescape_from escape_byte
unescape-escape_byte c rest = ground (arith, octal_triple-digits c rest)

-- Decoding the control-mode escaping of any bytes gives the bytes back.
pub unescape-escape : (s : Bytes) → unescape (escape s) ≡ s
unfolding unescape escape
unescape-escape [] = refl
unescape-escape (c ∷ s) = unescape-escape_byte c (escape s) ∙ ap (◌∷◌ c) (unescape-escape s)

-- A text with no backslash decodes to itself.
unescape-Lacks : (s : Bytes) → Lacks b'\\' s → unescape s ≡ s
unfolding unescape
unescape-Lacks [] h = refl
unescape-Lacks (c ∷ s) h = ground (arith, unescape-Lacks s h.1)
