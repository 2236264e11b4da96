-- ===== src/Ids.antt =====
-- ids.go: the identifiers of sessions, windows and panes, and what may be given to `-t`. An
-- identifier type is a defined string type in the source, so it is the text here; the error of
-- `badID` keeps what its message is made of.
pub mod Laws
use gotmucks.Base.{
  ℕ, Bool, true, false, ◌&&◌, [], ◌∷◌, Bytes, ◌==◌, if◌then◌else◌, Option, none, some, not,
}
use gotmucks.Base.Int.{ℤ}
use gotmucks.Strings.{is_digit, parse_int, trim_space}

abbrev pub SessionId : Type 0
SessionId = Bytes

abbrev pub WindowId : Type 0
WindowId = Bytes

abbrev pub PaneId : Type 0
PaneId = Bytes

abbrev pub session_sigil : ℕ
session_sigil = b'$'

abbrev pub window_sigil : ℕ
window_sigil = b'@'

abbrev pub pane_sigil : ℕ
pane_sigil = b'%'

-- The kinds of object, which the error messages name.
pub data ObjectKind : Type 0 where
  session window pane : ObjectKind

pub data IdError : Type 0 where
  -- wraps `ErrInvalidID`
  bad_id : Bytes → ℕ → ObjectKind → IdError
  -- the digits overflow an `int`
  bad_ordinal : ObjectKind → Bytes → IdError

unfoldable pub all_digits : Bytes → Bool
all_digits [] = true
all_digits (c ∷ s) = is_digit c && all_digits s

unfoldable pub valid_id : Bytes → ℕ → Bool
unfolding all_digits is_digit
valid_id [] sigil = false
valid_id (c ∷ []) sigil = false
valid_id (c ∷ d ∷ s) sigil = c == sigil && all_digits (d ∷ s)

-- `checkID`: `none` where the identifier is one.
unfoldable pub check_id : Bytes → ℕ → ObjectKind → Option IdError
check_id s sigil kind = if not (valid_id s sigil) then some (bad_id s sigil kind) else none

-- A value or an error, as `ParseSessionID` and the methods `Ordinal` return them.
pub data Parsed (A : Type 0) : Type 0 where
  ok : A → Parsed A
  err : IdError → Parsed A

abbrev tail_bytes : Bytes → Bytes
tail_bytes [] = []
tail_bytes (c ∷ s) = s

unfoldable pub id_ordinal : Bytes → ℕ → ObjectKind → Parsed ℤ
id_ordinal s sigil kind =
    if not (valid_id s sigil)
    then err (bad_id s sigil kind)
    else elim (parse_int (tail_bytes s)) [ some n ↦ ok n | none ↦ err (bad_ordinal kind s) ]

unfoldable pub parse_id : Bytes → ℕ → ObjectKind → Parsed Bytes
unfolding check_id
parse_id s sigil kind = elim (check_id s sigil kind) [ some e ↦ err e | none ↦ ok s ]

abbrev pub parse_session_id : Bytes → Parsed SessionId
parse_session_id s = parse_id s session_sigil session

abbrev pub parse_window_id : Bytes → Parsed WindowId
parse_window_id s = parse_id s window_sigil window

abbrev pub parse_pane_id : Bytes → Parsed PaneId
parse_pane_id s = parse_id s pane_sigil pane

-- The interface `Target`, which no other package can add to; `nil` is read as `global`.
pub data Target : Type 0 where
  session_target : SessionId → Target
  window_target : WindowId → Target
  pane_target : PaneId → Target
  global : Target

unfoldable pub target_arg : Target → Bytes
target_arg (session_target id) = id
target_arg (window_target id) = id
target_arg (pane_target id) = id
target_arg global = []

unfoldable pub check_target : Target → Option IdError
unfolding check_id
check_target (session_target id) = check_id id session_sigil session
check_target (window_target id) = check_id id window_sigil window
check_target (pane_target id) = check_id id pane_sigil pane
check_target global = none

-- `trimID`.
unfoldable pub trim_id : Bytes → Bytes
trim_id = trim_space
