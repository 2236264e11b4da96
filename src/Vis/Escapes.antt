-- ===== src/Vis/Escapes.antt =====
-- vis.go: what `visDecode` reads, for any writer that escapes as vis(3) does and not only for
-- `visEncode`: tmux's own may also escape a quote or a space.
use gotmucks.Base.{
  ℕ, ◌≤◌, ◌≢◌, ◌≡◌, refl, ◌∙◌, arith, [], ◌∷◌, Bytes, All, none, some, contains_byte, codes, true,
}
use gotmucks.Escape.{octal_loop}
use gotmucks.Vis.{simple_escape, octal_byte, decode_from, vis_decode}
use gotmucks.Vis.RoundTrip.{vis_decode-loop}

-- The second text is an escaping of the first: each byte stands for itself, or is a backslash and a
-- letter, or is a backslash and three octal digits; a byte below space never stands for itself.
pub data Escapes : Bytes → Bytes → Type 0 where
  nothing : Escapes [] []
  itself : (c : ℕ) (s e : Bytes) → c ≢ b'\\' → b' ' ≤ c → Escapes s e → Escapes (c ∷ s) (c ∷ e)
  letter :
      (c d : ℕ) (s e : Bytes)
      → simple_escape d ≡ some c
      → Escapes s e
      → Escapes (c ∷ s) (b'\\' ∷ d ∷ e)
  octal :
      (c x y z : ℕ) (s e : Bytes)
      → simple_escape x ≡ none
      → octal_byte (x ∷ y ∷ z ∷ []) ≡ some c
      → Escapes s e
      → Escapes (c ∷ s) (b'\\' ∷ x ∷ y ∷ z ∷ e)

octal_byte-append :
    (x y z c : ℕ) (e : Bytes)
    → octal_byte (x ∷ y ∷ z ∷ []) ≡ some c
    → octal_byte (x ∷ y ∷ z ∷ e) ≡ some c
unfolding octal_byte octal_loop
octal_byte-append x y z c e h = ground arith

decode_from-Escapes : (s e : Bytes) → Escapes s e → decode_from 0 e ≡ s
unfolding decode_from
decode_from-Escapes s e nothing = refl
decode_from-Escapes s e (itself c t [] n p h) = ground (arith, decode_from-Escapes t [] h)
decode_from-Escapes s e (itself c t (d ∷ u) n p h) = ground (arith, decode_from-Escapes t (d ∷ u) h)
decode_from-Escapes s e (letter c d t u q h) = ground (arith, decode_from-Escapes t u h)
decode_from-Escapes s e (octal c x y z t u n q h) =
    ground (arith, octal_byte-append x y z c u q, decode_from-Escapes t u h)

-- Whatever escaping of a text is read, the text is found.
pub vis_decode-Escapes : (s e : Bytes) → Escapes s e → vis_decode e ≡ s
vis_decode-Escapes s e h = vis_decode-loop e ∙ decode_from-Escapes s e h

octal_byte-visible :
    (x y z c : ℕ) → octal_byte (x ∷ y ∷ z ∷ []) ≡ some c → (b' ' ≤ x) × (b' ' ≤ y) × (b' ' ≤ z)
unfolding octal_byte octal_loop
octal_byte-visible x y z c h = ground arith

simple_escape-visible : (c d : ℕ) → simple_escape d ≡ some c → b' ' ≤ d
unfolding simple_escape
simple_escape-visible c d h = ground arith

-- An escaping holds no byte below space.
pub Escapes-visible : (s e : Bytes) → Escapes s e → All (λ c. b' ' ≤ c) e
Escapes-visible s e nothing = tt
Escapes-visible s e (itself c t u n p h) = (p, Escapes-visible t u h)
Escapes-visible s e (letter c d t u q h) =
    (omega arith, (simple_escape-visible c d q, Escapes-visible t u h))
Escapes-visible s e (octal c x y z t u n q h) =
    let v = octal_byte-visible x y z c q in
    (omega arith, (v.0, (v.1, (v.2, Escapes-visible t u h))))

-- The bytes that tmux quotes a value for stand for themselves, where they end an escape of two bytes.
pub simple_escape_same :
    (c d : ℕ) → contains_byte d (codes "#';${}%\"") ≡ true → simple_escape d ≡ some c → c ≡ d
unfolding contains_byte simple_escape
simple_escape_same c d h q = ground arith

pub simple_escape-ne-tilde : (c d : ℕ) → simple_escape d ≡ some c → d ≢ b'~'
unfolding simple_escape
simple_escape-ne-tilde c d h = ground arith
