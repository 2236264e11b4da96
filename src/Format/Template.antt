-- ===== src/Format/Template.antt =====
-- The escaping of a caller's text for a format (format.go).
use gotmucks.Base.{
  ℕ, false, [], ◌∷◌, ◌≡◌, refl, arith, Bytes, Option, none, some, ◌>>=◌, ◌==◌, if◌then◌else◌,
  contains_byte,
}
use gotmucks.Format.{double_hash, escape_format}

-- The text that a template without formats stands for: "##" is one '#', and a '#' by itself would
-- begin a format, so there is no such text.
unfoldable pub literal_text : Bytes → Option Bytes
literal_text [] = some []
literal_text (c ∷ []) = if c == b'#' then none else some (c ∷ [])
literal_text (c ∷ d ∷ s) =
    let paired = literal_text s in
    let single = literal_text (d ∷ s) in
    if c == b'#'
    then (if d == b'#' then (do r ← paired; some (b'#' ∷ r)) else none)
    else (do r ← single; some (c ∷ r))

literal_text-cons :
    (c : ℕ) (s : Bytes)
    → (c == b'#') ≡ false
    → literal_text (c ∷ s) ≡ (do r ← literal_text s; some (c ∷ r))
unfolding literal_text
literal_text-cons c [] h = ground arith
literal_text-cons c (d ∷ s) h = ground arith

double_hash-cons :
    (c : ℕ) (s : Bytes)
    → literal_text (double_hash s) ≡ some s
    → literal_text (double_hash (c ∷ s)) ≡ some (c ∷ s)
unfolding double_hash literal_text
double_hash-cons c s h = ground (arith, h, literal_text-cons c (double_hash s))

double_hash-nil : literal_text (double_hash []) ≡ some []
unfolding double_hash literal_text
double_hash-nil = refl

literal_text-double_hash : (s : Bytes) → literal_text (double_hash s) ≡ some s
literal_text-double_hash [] = double_hash-nil
literal_text-double_hash (c ∷ s) = double_hash-cons c s (literal_text-double_hash s)

plain-double_hash : (s : Bytes) → contains_byte b'#' s ≡ false → double_hash s ≡ s
unfolding double_hash contains_byte
plain-double_hash [] h = refl
plain-double_hash (c ∷ s) h = ground (arith, plain-double_hash s)

-- A caller's text, once escaped, holds no single number sign that would begin a format, and reading
-- its doubled signs as single ones gives the text itself.
pub literal_text-escape_format : (s : Bytes) → literal_text (escape_format s) ≡ some s
unfolding escape_format
literal_text-escape_format s = ground (arith, literal_text-double_hash s, plain-double_hash s)
