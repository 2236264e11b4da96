-- ===== src/TmuxOptions/Value.antt =====
-- `unquoteOptionValue` of tmuxopts.go, against what the source says tmux prints for a value.
use gotmucks.Base.{
  ℕ, true, ◌≢◌, ◌≡◌, refl, sym, ap, ◌∙◌, arith, [], ◌∷◌, ◌++◌, Bytes, some, contains_byte, ◌⊎◌, inl,
  inr, Bool-cases,
}
use gotmucks.Escape.{octal_loop}
use gotmucks.Vis.{octal_byte, vis_decode}
use gotmucks.Vis.Escapes.{
  Escapes, nothing, itself, letter, octal, vis_decode-Escapes, simple_escape_same,
  simple_escape-ne-tilde,
}
use gotmucks.TmuxOptions.{
  args_escape_quoted, unprefix_option_value, without_last, strip_quotes, unquote_option_value,
}

abbrev pub IsQuote : ℕ → Type 0
IsQuote q = (q ≡ b'"') ⊎ (q ≡ b'\'')

-- An escaping that does not begin with a quote.
abbrev pub IsBare : Bytes → Type 0
IsBare [] = Unit
IsBare (c ∷ s) = (c ≢ b'"') × (c ≢ b'\'')

-- An escaping, behind a backslash if it begins with a tilde.
pub data Prefixed : Bytes → Bytes → Type 0 where
  plain : (v e : Bytes) → Escapes v e → Prefixed v e
  tilde : (v e : Bytes) → Escapes v e → Prefixed (b'~' ∷ v) (b'\\' ∷ b'~' ∷ e)

-- What tmux prints for a value: its escaping, in quotes of either kind or in none, or a backslash
-- and the one byte that it is, where that byte would need quotes.
pub data Printed : Bytes → Bytes → Type 0 where
  bare : (v e : Bytes) → Prefixed v e → IsBare e → Printed v e
  quoted : (q : ℕ) (v e : Bytes) → IsQuote q → Prefixed v e → Printed v (q ∷ (e ++ q ∷ []))
  single : (c : ℕ) → contains_byte c args_escape_quoted ≡ true → Printed (c ∷ []) (b'\\' ∷ c ∷ [])

without_last-append : (q : ℕ) (e : Bytes) → without_last q (e ++ q ∷ []) ≡ some e
unfolding without_last
without_last-append q [] = ground arith
without_last-append q (c ∷ []) = ground arith
without_last-append q (c ∷ d ∷ e) = rw (without_last-append q (d ∷ e)) refl

strip-quoted : (q : ℕ) (e : Bytes) → IsQuote q → strip_quotes (q ∷ (e ++ q ∷ [])) ≡ e
unfolding strip_quotes
strip-quoted q e h = ground (arith, without_last-append q e)

strip-bare : (e : Bytes) → IsBare e → strip_quotes e ≡ e
unfolding strip_quotes
strip-bare [] h = refl
strip-bare (c ∷ e) h = ground arith

octal-ne-tilde : (x y z c : ℕ) → octal_byte (x ∷ y ∷ z ∷ []) ≡ some c → x ≢ b'~'
unfolding octal_byte octal_loop
octal-ne-tilde x y z c h = ground arith

vis_decode-byte : (c : ℕ) → vis_decode (c ∷ []) ≡ c ∷ []
unfolding vis_decode contains_byte
vis_decode-byte c = ground arith

Escapes-nil : (s e : Bytes) → Escapes s e → e ≡ [] → s ≡ []
Escapes-nil s e nothing h = refl
Escapes-nil s e (itself c t u n p q) h = ground arith
Escapes-nil s e (letter c d t u n q) h = ground arith
Escapes-nil s e (octal c x y z t u n p q) h = ground arith

unprefix-plain : (c : ℕ) (s : Bytes) → c ≢ b'\\' → unprefix_option_value (c ∷ s) ≡ c ∷ s
unfolding unprefix_option_value
unprefix-plain c [] n = refl
unprefix-plain c (d ∷ s) n = ground arith

unprefix-longer :
    (d c : ℕ) (s : Bytes) → d ≢ b'~' → unprefix_option_value (b'\\' ∷ d ∷ c ∷ s) ≡ b'\\' ∷ d ∷ c ∷ s
unfolding unprefix_option_value
unprefix-longer d c s n = ground arith

unprefix-two :
    (d : ℕ)
    → d ≢ b'~'
    → (unprefix_option_value (b'\\' ∷ d ∷ []) ≡ b'\\' ∷ d ∷ [])
      ⊎ ((unprefix_option_value (b'\\' ∷ d ∷ []) ≡ d ∷ [])
          × (contains_byte d args_escape_quoted ≡ true))
unfolding unprefix_option_value
unprefix-two d n = elim (Bool-cases (contains_byte d args_escape_quoted)) [
  | inl h ↦ inr (ground arith, h)
  | inr h ↦ inl (ground arith)
]

-- Taking the backslash off an escaping does not change what it stands for.
decode-unprefix : (v e : Bytes) → Escapes v e → vis_decode (unprefix_option_value e) ≡ v
decode-unprefix v e nothing = unfold unprefix_option_value in vis_decode-Escapes [] [] nothing
decode-unprefix v e (itself c s u n p h) =
    ap vis_decode (unprefix-plain c u n) ∙ vis_decode-Escapes (c ∷ s) (c ∷ u) (itself c s u n p h)
decode-unprefix v e (octal c x y z s u n q h) =
    ap vis_decode (unprefix-longer x y (z ∷ u) (octal-ne-tilde x y z c q))
    ∙ vis_decode-Escapes _ _ (octal c x y z s u n q h)
decode-unprefix v e (letter c d s (a ∷ u) q h) =
    ap vis_decode (unprefix-longer d a u (simple_escape-ne-tilde c d q))
    ∙ vis_decode-Escapes _ _ (letter c d s (a ∷ u) q h)
decode-unprefix v e (letter c d s [] q h) = elim (unprefix-two d (simple_escape-ne-tilde c d q)) [
  | inl same ↦ ap vis_decode same ∙ vis_decode-Escapes _ _ (letter c d s [] q h)
  | inr (off, special) ↦
      ap vis_decode off
      ∙ vis_decode-byte d
      ∙ sym (grind (arith, simple_escape_same c d special q, Escapes-nil s [] h refl))
]

decode-Prefixed : (v e : Bytes) → Prefixed v e → vis_decode (unprefix_option_value e) ≡ v
decode-Prefixed v e (plain _ _ h) = decode-unprefix v e h
decode-Prefixed v e (tilde w u h) =
    unfold unprefix_option_value in
    vis_decode-Escapes _ _ (itself b'~' w u (omega arith) (omega arith) h)

-- Whichever form tmux prints a value in, the value is what is read back.
pub unquote-Printed : (v p : Bytes) → Printed v p → unquote_option_value p ≡ v
unfolding unquote_option_value unprefix_option_value strip_quotes
unquote-Printed v p (bare _ _ h b) = rw (strip-bare p b) (decode-Prefixed v p h)
unquote-Printed v p (quoted q _ e k h) = rw (strip-quoted q e k) (decode-Prefixed v e h)
unquote-Printed v p (single c h) = ground (arith, vis_decode-byte c)
