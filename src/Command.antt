-- ===== src/Command.antt =====
-- The line that `Do` sends (control.go) and the quoting of `DoArgs` (control_cmds.go). An index into
-- the line is the part of it that is left, together with the index itself where the source reports
-- it; a loop that moves its index by hand has a count of the bytes that it still passes over.
pub mod Quote
pub mod Sendable
pub mod Refresh
use gotmucks.Base.{
  ℕ, zero, suc, Bool, true, false, not, ◌&&◌, ◌||◌, List, [], ◌∷◌, Bytes, Option, none, some, ◌==◌,
  if◌then◌else◌, codes,
}
use gotmucks.Strings.{trim_space, index_any, join}
use gotmucks.Command.Quote.{quote_arg}

-- `commentStart`, from an index on.
comment_from : ℕ → Bytes → Option ℕ
comment_from i [] = none
comment_from i (c ∷ s) =
    let rest = comment_from (suc i) s in
    if c == b' ' || c == b'\t' then rest else if c == b'#' then some i else none

unfoldable pub comment_start : Bytes → Option ℕ
unfolding comment_from
comment_start = comment_from 0

-- What one byte does in the loop of `commandBreak`: it breaks the line, or the loop goes on past
-- `skip` bytes more, in the quote given (0 for none), at the start of a token or not.
pub data Scan : Type 0 where
  breaks : Scan
  goes_on : ℕ → ℕ → Bool → Scan

unfoldable pub scan_byte : ℕ → Bool → ℕ → Scan
scan_byte quote start c =
    if c == b'\\' && not (quote == b'\'')
    then goes_on 1 quote false
    else if not (quote == 0)
    then goes_on 0 (if c == quote then 0 else quote) false
    else if c == b'\'' || c == b'"'
    then goes_on 0 c false
    else if c == b';'
    then breaks
    else if c == b'{' && start
    then breaks
    else if c == b' ' || c == b'\t'
    then goes_on 0 quote true
    else goes_on 0 quote false

unfoldable pub break_from : ℕ → ℕ → ℕ → Bool → Bytes → Option (ℕ × ℕ)
unfolding scan_byte
break_from skip i quote start [] = none
break_from (suc skip) i quote start (c ∷ s) = break_from skip (suc i) quote start s
break_from zero i quote start (c ∷ s) = elim (scan_byte quote start c) [
  | breaks ↦ some (c, i)
  | goes_on skip quote' start' ↦ break_from skip (suc i) quote' start' s
]

-- The byte that breaks the line, and its index.
unfoldable pub command_break : Bytes → Option (ℕ × ℕ)
unfolding break_from
command_break = break_from 0 0 0 true

-- Why `Do` refuses a line; the index is that of the byte at fault.
pub data LineError : Type 0 where
  empty_command : LineError
  unsendable_byte : ℕ → LineError
  opens_comment : ℕ → LineError
  second_command : ℕ → ℕ → LineError
  no_command : LineError

unfoldable pub is_blank : Bytes → Bool
is_blank [] = true
is_blank (c ∷ s) = false

-- The checks of `Do`, in order.
check_break : Option (ℕ × ℕ) → Option LineError
check_break none = none
check_break (some (b, i)) = some (second_command b i)

check_comment : Bytes → Option ℕ → Option LineError
unfolding check_break
check_comment cmd (some i) = some (opens_comment i)
check_comment cmd none = check_break (command_break cmd)

check_bytes : Bytes → Option ℕ → Option LineError
unfolding check_comment
check_bytes cmd (some i) = some (unsendable_byte i)
check_bytes cmd none = check_comment cmd (comment_start cmd)

unfoldable pub check_line : Bytes → Option LineError
unfolding check_bytes is_blank
check_line cmd =
    if is_blank (trim_space cmd)
    then some empty_command
    else check_bytes cmd (index_any cmd (b'\n' ∷ 0 ∷ []))

-- The line of `DoArgs`, one part for each argument.
unfoldable pub quote_all : List Bytes → List Bytes
quote_all [] = []
quote_all (a ∷ more) = quote_arg a ∷ quote_all more

pub data Assembled : Type 0 where
  line : Bytes → Assembled
  refused : LineError → Assembled

unfoldable pub args_line : List Bytes → Assembled
unfolding quote_all
args_line [] = refused no_command
args_line (a ∷ more) = line (join (b' ' ∷ []) (quote_all (a ∷ more)))
