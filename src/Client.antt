-- ===== src/Client.antt =====
-- client.go: what is done to the arguments of a command before it starts, and to its output after it.
pub mod Dollar
pub mod Lines
pub mod Visible
pub mod Run
use gotmucks.Base.{
  ℕ, Bool, true, false, not, ◌&&◌, List, [], ◌∷◌, ◌++◌, Bytes, codes, ◌==◌, if◌then◌else◌, length,
  take, ◌-◌, map,
}
use gotmucks.Strings.{has_suffix, trim_suffix, split, cut_text}

-- The loop of `undoDollarEscape`.
unfoldable pub undo_loop : Bytes → Bytes
undo_loop [] = []
undo_loop (c ∷ []) = c ∷ []
undo_loop (c ∷ d ∷ []) = c ∷ undo_loop (d ∷ [])
undo_loop (c ∷ d ∷ e ∷ s) =
    let rest = undo_loop (d ∷ e ∷ s) in if c == b'\\' && d == b'$' then rest else c ∷ rest

unfoldable pub undo_dollar_escape : Bytes → Bytes
unfolding undo_loop
undo_dollar_escape v = if not (cut_text (codes "\\$") v).found then v else undo_loop v

-- One argument of `escapeTrailingSemicolon`.
unfoldable pub escape_semicolon : Bytes → Bytes
escape_semicolon a =
    if not (has_suffix (b';' ∷ []) a) then a else take (length a - 1) a ++ b'\\' ∷ b';' ∷ []

-- The slice is copied in the source; here a list is a value.
unfoldable pub escape_trailing_semicolon : List Bytes → List Bytes
unfolding escape_semicolon
escape_trailing_semicolon [] = []
escape_trailing_semicolon (a ∷ more) = escape_semicolon a ∷ escape_trailing_semicolon more

abbrev pub without_return : Bytes → Bytes
without_return = trim_suffix (13 ∷ [])

unfoldable pub without_returns : List Bytes → List Bytes
without_returns [] = []
without_returns (l ∷ ls) = without_return l ∷ without_returns ls

unfoldable pub split_lines : Bytes → List Bytes
unfolding without_returns
split_lines [] = []
split_lines (c ∷ s) =
    without_returns (split b'\n' (without_return (trim_suffix (b'\n' ∷ []) (c ∷ s))))
