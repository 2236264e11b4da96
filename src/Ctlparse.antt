-- ===== src/Ctlparse.antt =====
-- internal/ctlparse/ctlparse.go: `Classify` and what it is made of. The decoders of the arguments are
-- in `Args`; `Shape` and `Ids` have the theorems.
pub mod Args
pub mod Ids
pub mod Shape
use gotmucks.Base.{
  ℕ, suc, zero, Bool, true, false, ◌&&◌, ◌||◌, not, List, [], ◌∷◌, Bytes, codes, ◌==◌, leb,
  bytes_eq, if◌then◌else◌, Option, none, some, ◌>>=◌,
}
use gotmucks.Base.Int.{ℤ, pos}
use gotmucks.Strings.{Pieces, cut, fields, parse_int, is_digit}

pub data Kind : Type 0 where
  data_kind begin_kind end_kind error_kind notification : Kind

pub record Line : Type 0 where
  pub kind : Kind
  pub raw : Bytes
  pub time : ℤ
  pub number : ℤ
  pub flags : ℤ
  pub has_flags : Bool
  pub name : Bytes
  pub args : Bytes
  pub malformed : Bool

-- `Line{Raw: line}`.
abbrev pub plain : Bytes → Line
plain line = record {
  kind = data_kind;
  raw = line;
  time = pos 0;
  number = pos 0;
  flags = pos 0;
  has_flags = false;
  name = [];
  args = [];
  malformed = false;
}

unfoldable pub mem_bytes : Bytes → List Bytes → Bool
unfolding bytes_eq
mem_bytes s [] = false
mem_bytes s (t ∷ ts) = bytes_eq s t || mem_bytes s ts

-- The map `notifications`.
abbrev pub notifications : List Bytes
notifications =
    codes "begin"
    ∷ codes "end"
    ∷ codes "error"
    ∷ codes "output"
    ∷ codes "extended-output"
    ∷ codes "pause"
    ∷ codes "continue"
    ∷ codes "exit"
    ∷ codes "sessions-changed"
    ∷ codes "session-changed"
    ∷ codes "session-renamed"
    ∷ codes "session-window-changed"
    ∷ codes "window-add"
    ∷ codes "window-close"
    ∷ codes "window-renamed"
    ∷ codes "window-pane-changed"
    ∷ codes "unlinked-window-add"
    ∷ codes "unlinked-window-close"
    ∷ codes "unlinked-window-renamed"
    ∷ codes "pane-mode-changed"
    ∷ codes "layout-change"
    ∷ codes "client-session-changed"
    ∷ codes "client-detached"
    ∷ codes "subscription-changed"
    ∷ codes "message"
    ∷ codes "config-error"
    ∷ codes "paste-buffer-changed"
    ∷ codes "paste-buffer-deleted"
    ∷ []

unfoldable pub is_known_notification : Bytes → Bool
unfolding mem_bytes
is_known_notification name = mem_bytes name notifications

-- The loop of `looksLikeNotificationName`; the flag is `i > 0`.
name_shape : Bool → Bytes → Bool
name_shape inside [] = true
name_shape inside (c ∷ s) =
    ((leb b'a' c && leb c b'z') || (c == b'-' && inside)) && name_shape true s

unfoldable pub looks_like_notification_name : Bytes → Bool
unfolding name_shape
looks_like_notification_name [] = false
looks_like_notification_name (c ∷ s) = name_shape false (c ∷ s)

-- The flags field, if the line carries one that is a number.
block_flags : Line → List Bytes → Line
block_flags l [] = l
block_flags l (f ∷ _) = elim (parse_int f) [
  | some n ↦ record l { flags = n; has_flags = true }
  | none ↦ l
]

block_fields : Line → List Bytes → Option Line
unfolding block_flags
block_fields l [] = none
block_fields l (t ∷ []) = none
block_fields l (t ∷ n ∷ rest) = do
  time ← parse_int t
  number ← parse_int n
  some (block_flags (record l { time = time; number = number }) rest)

-- `parseBlockArgs`: the line with its numbers, or `none` with the line as it was.
unfoldable pub parse_block_args : Line → Bytes → Option Line
unfolding block_fields
parse_block_args l args = block_fields l (fields args)

-- The case of `begin`, `end` and `error` in `Classify`.
block_line : Line → Bytes → Line
unfolding parse_block_args
block_line l args = elim (parse_block_args l args) [
  | some parsed ↦ parsed
  | none ↦ record l { malformed = true }
]

-- The switch of `Classify` on the name.
by_name : Bytes → Bytes → Bytes → Line
unfolding block_line
by_name line name args =
    let l = plain line in
    if bytes_eq name (codes "begin")
    then block_line (record l { kind = begin_kind }) args
    else if bytes_eq name (codes "end")
    then block_line (record l { kind = end_kind }) args
    else if bytes_eq name (codes "error")
    then block_line (record l { kind = error_kind }) args
    else record l { kind = notification; name = name; args = args }

-- From the cut on: the first byte of the name, then the rest of it.
with_name : Bytes → Bytes → Bytes → Line
unfolding by_name
with_name line [] args = plain line
with_name line (c ∷ s) args =
    if is_digit c
    then plain line
    else if not (is_known_notification (c ∷ s)) && not (looks_like_notification_name (c ∷ s))
    then plain line
    else by_name line (c ∷ s) args

unfoldable pub classify : Bytes → Line
unfolding with_name is_known_notification looks_like_notification_name is_digit
classify [] = plain []
classify (c ∷ s) =
    let pieces = cut b' ' s in
    if not (c == b'%') then plain (c ∷ s) else with_name (c ∷ s) pieces.before pieces.after
