-- ===== src/Command/Quote.antt =====
-- `quoteArg` and what it is made of (control_cmds.go).
pub mod Unbroken
use gotmucks.Base.{
  ℕ, Bool, true, false, not, ◌&&◌, ◌||◌, List, [], ◌∷◌, ◌++◌, Bytes, ◌==◌, leb, if◌then◌else◌,
  contains_byte,
}
use gotmucks.Strings.{split}

unfoldable pub safe_byte : ℕ → Bool
safe_byte c =
    (leb b'a' c && leb c b'z')
    || (leb b'A' c && leb c b'Z')
    || (leb b'0' c && leb c b'9')
    || c == b'_'
    || c == b'-'
    || c == b'.'
    || c == b'/'
    || c == b':'
    || c == b'='
    || c == b','
    || c == b'+'

unfoldable pub needs_quoting : Bytes → Bool
needs_quoting [] = false
needs_quoting (c ∷ s) = if not (safe_byte c) then true else needs_quoting s

-- The loop of `quoteToken`: a backslash in front of each byte that is not safe.
unfoldable pub escape_unsafe : Bytes → Bytes
escape_unsafe [] = []
escape_unsafe (c ∷ s) =
    let rest = escape_unsafe s in if not (safe_byte c) then b'\\' ∷ c ∷ rest else c ∷ rest

unfoldable pub quote_token : Bytes → Bytes
unfolding needs_quoting escape_unsafe
quote_token s =
    if not (needs_quoting s)
    then s
    else if not (contains_byte b'\'' s)
    then b'\'' ∷ (s ++ b'\'' ∷ [])
    else escape_unsafe s

-- A newline, in a form that is no newline.
abbrev pub quoted_newline : Bytes
quoted_newline = b'"' ∷ b'\\' ∷ b'n' ∷ b'"' ∷ []

unfoldable pub quote_part : Bytes → Bytes
unfolding quote_token
quote_part [] = []
quote_part (c ∷ s) = quote_token (c ∷ s)

-- The loop over the parts, behind the first.
unfoldable pub more_parts : List Bytes → Bytes
unfolding quote_part
more_parts [] = []
more_parts (p ∷ ps) = quoted_newline ++ (quote_part p ++ more_parts ps)

unfoldable pub quote_parts : List Bytes → Bytes
unfolding more_parts
quote_parts [] = []
quote_parts (p ∷ ps) = quote_part p ++ more_parts ps

unfoldable pub quote_arg : Bytes → Bytes
unfolding quote_parts quote_token contains_byte
quote_arg [] = b'\'' ∷ b'\'' ∷ []
quote_arg (c ∷ s) =
    if not (contains_byte b'\n' (c ∷ s))
    then quote_token (c ∷ s)
    else quote_parts (split b'\n' (c ∷ s))
