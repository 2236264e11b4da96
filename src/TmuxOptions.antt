-- ===== src/TmuxOptions.antt =====
-- tmuxopts.go: tmux options, how they are set and unset, and how the values that tmux prints are
-- read back.
pub mod Value
pub mod Listing
pub mod Reading
pub mod Elements
pub mod Single
pub mod Checked
use gotmucks.Base.{
  ℕ, zero, suc, Bool, true, false, not, ◌&&◌, ◌||◌, ◌==◌, leb, ltb, List, [], ◌∷◌, ◌++◌, Bytes,
  Option, none, some, codes, if◌then◌else◌, contains_byte, length, bytes_eq,
}
use gotmucks.Strings.{cut, has_suffix, trim_suffix, is_digit}
use gotmucks.Vis.{vis_decode}
use gotmucks.Ids.{Target, target_arg, check_target, pane_target, all_digits}
use gotmucks.Dict.{Dict, put}
use gotmucks.Config.{Config}
use gotmucks.Errors.{to_lower, holds_any}
use gotmucks.Client.Run.{
  Outside, Op, Result, ok, err, Failure, exit, invalid, refused, ◌>>=◌, ◌>>◌, done, fail, guard,
  attempt, run_ok, run_lines, decode_stored, says_no_server, says_missing,
}

pub data OptionScope : Type 0 where
  session server global window pane global_window : OptionScope

unfoldable pub flags : OptionScope → List Bytes
flags session = []
flags server = codes "-s" ∷ []
flags global = codes "-g" ∷ []
flags window = codes "-w" ∷ []
flags pane = codes "-p" ∷ []
flags global_window = codes "-g" ∷ codes "-w" ∷ []

abbrev flag_of : Bytes → List Bytes
flag_of [] = []
flag_of (c ∷ s) = codes "-t" ∷ (c ∷ s) ∷ []

unfoldable pub target_args : Target → List Bytes
unfolding target_arg
target_args t = flag_of (target_arg t)

pub data OptionError : Type 0 where
  empty_name : OptionError
  -- the byte, and its index
  bad_byte : ℕ → ℕ → OptionError
  -- the number of elements printed
  array_of : ℕ → OptionError

-- The loop of `checkOptionName` at an index.
unfoldable pub name_from : ℕ → Bytes → Option OptionError
name_from i [] = none
name_from i (c ∷ s) =
    let rest = name_from (suc i) s in if leb c b' ' then some (bad_byte c i) else rest

unfoldable pub check_option_name : Bytes → Option OptionError
unfolding name_from
check_option_name [] = some empty_name
check_option_name (c ∷ s) = name_from 0 (c ∷ s)

abbrev is_empty : Bytes → Bool
is_empty [] = true
is_empty (c ∷ s) = false

-- What is in front of the last byte of this kind, and behind it.
unfoldable pub cut_last : ℕ → Bytes → Option (Bytes × Bytes)
cut_last b [] = none
cut_last b (c ∷ s) = elim (cut_last b s) [
  | some (before, after) ↦ some (c ∷ before, after)
  | none ↦ (if c == b then some ([], s) else none)
]

-- The part behind the opening bracket, without the closing one, is an index.
abbrev is_index : Bytes → Bool
is_index index = not (is_empty index) && all_digits index

-- The name in front of the last opening bracket, if an index follows up to the end.
indexed : Bytes → Bytes → Bytes → Bytes × Bool
unfolding has_suffix all_digits trim_suffix
indexed printed base rest =
    if is_empty base || not (has_suffix (b']' ∷ []) printed)
    then (printed, false)
    else if is_index (trim_suffix (b']' ∷ []) rest)
    then (base, true)
    else (printed, false)

-- `splitArrayElement`: the name without its index, and whether there is one.
unfoldable pub split_array_element : Bytes → Bytes × Bool
unfolding cut_last indexed
split_array_element printed = elim (cut_last b'[' printed) [
  | none ↦ (printed, false)
  | some (base, rest) ↦ indexed printed base rest
]

unfoldable pub is_array_element : Bytes → Bytes → Bool
unfolding split_array_element bytes_eq
is_array_element printed name =
    let (base, indexed) = split_array_element printed in indexed && bytes_eq base name

abbrev pub unknown_option_patterns : List Bytes
unknown_option_patterns = codes "invalid option" ∷ codes "unknown option" ∷ []

unfoldable pub is_unknown_option_stderr : (Bytes → Bytes) → Bytes → Bool
unfolding holds_any to_lower
is_unknown_option_stderr unicode stderr =
    holds_any unknown_option_patterns (to_lower unicode stderr)

abbrev pub args_escape_quoted : Bytes
args_escape_quoted = codes "#';${}%\""

unfoldable pub unprefix_option_value : Bytes → Bytes
unfolding contains_byte
unprefix_option_value [] = []
unprefix_option_value (c ∷ []) = c ∷ []
unprefix_option_value (c ∷ d ∷ s) =
    if not (c == b'\\')
    then c ∷ d ∷ s
    else if d == b'~' || (is_empty s && contains_byte d args_escape_quoted)
    then d ∷ s
    else c ∷ d ∷ s

-- The last byte is this one, and what is in front of it.
unfoldable pub without_last : ℕ → Bytes → Option Bytes
without_last b [] = none
without_last b (c ∷ []) = if c == b then some [] else none
without_last b (c ∷ d ∷ s) = elim (without_last b (d ∷ s)) [ none ↦ none | some t ↦ some (c ∷ t) ]

-- The value without the quotes, where both are the same.
unfoldable pub strip_quotes : Bytes → Bytes
unfolding without_last
strip_quotes [] = []
strip_quotes (c ∷ s) =
    if c == b'"' || c == b'\'' then elim (without_last c s) [ none ↦ c ∷ s | some t ↦ t ] else c ∷ s

unfoldable pub unquote_option_value : Bytes → Bytes
unfolding strip_quotes unprefix_option_value vis_decode
unquote_option_value v = vis_decode (unprefix_option_value (strip_quotes v))

unfoldable pub on_off : Bool → Bytes
on_off true = codes "on"
on_off false = codes "off"

abbrev pub scope_of : Target → OptionScope
scope_of (pane_target id) = pane
scope_of _ = window

-- The arguments of the four commands.
abbrev pub set_args : Target → OptionScope → Bytes → Bytes → List Bytes
unfolding flags target_args
set_args t scope name value =
    codes "set-option" ∷ (flags scope ++ (target_args t ++ codes "--" ∷ name ∷ value ∷ []))

abbrev pub unset_args : Target → OptionScope → Bytes → List Bytes
unfolding flags target_args
unset_args t scope name =
    codes "set-option" ∷ codes "-u" ∷ (flags scope ++ (target_args t ++ codes "--" ∷ name ∷ []))

abbrev pub show_args : Target → OptionScope → Bytes → List Bytes
unfolding flags target_args
show_args t scope name =
    codes "show-options" ∷ (flags scope ++ (target_args t ++ codes "--" ∷ name ∷ []))

abbrev pub list_args : Target → OptionScope → List Bytes
unfolding flags target_args
list_args t scope = codes "show-options" ∷ (flags scope ++ target_args t)

module _ {W : Type 0} (out : Outside W) (cfg : Config) where
  unfoldable pub set_option_scoped :
      Target → OptionScope → Bytes → Bytes → Op W OptionError (Unit {0})
  unfolding check_option_name check_target run_ok
  set_option_scoped t scope name value = do
    guard refused (check_option_name name)
    guard invalid (check_target t)
    run_ok out cfg (set_args t scope name value)

  unfoldable pub set_option : Target → Bytes → Bytes → Op W OptionError (Unit {0})
  unfolding set_option_scoped
  set_option t name value = set_option_scoped t session name value

  unfoldable pub unset_option : Target → OptionScope → Bytes → Op W OptionError (Unit {0})
  unfolding check_option_name check_target run_ok
  unset_option t scope name = do
    guard refused (check_option_name name)
    guard invalid (check_target t)
    run_ok out cfg (unset_args t scope name)

  unfoldable pub set_remain_on_exit : Target → Bool → Op W OptionError (Unit {0})
  unfolding set_option_scoped on_off
  set_remain_on_exit t on = set_option_scoped t (scope_of t) (codes "remain-on-exit") (on_off on)

  -- The option is unknown, or what it is an option of is not there.
  unfoldable pub is_unset : Failure OptionError → Bool
  unfolding says_no_server says_missing is_unknown_option_stderr
  is_unset e =
      says_no_server e
      || says_missing e
      || elim e [ exit x ↦ is_unknown_option_stderr out.unicode_lower x.stderr | _ ↦ false ]

  -- The first line that was printed, with the number of lines.
  shown_line : Bytes → ℕ → Bytes → Op W OptionError (Bytes × Bool)
  unfolding cut is_array_element unquote_option_value decode_stored
  shown_line name n line =
      let p = cut b' ' line in
      if is_array_element p.before name
      then fail (refused (array_of n))
      else if not p.found
      then done ([], true)
      else (do v ← decode_stored out cfg (unquote_option_value p.after); done (v, true))

  shown : Bytes → Result OptionError (List Bytes) → Op W OptionError (Bytes × Bool)
  unfolding is_unset shown_line
  shown name (err e) = if is_unset e then done ([], false) else fail e
  shown name (ok []) = done ([], false)
  shown name (ok ([] ∷ lines)) = done ([], false)
  shown name (ok ((c ∷ line) ∷ lines)) = shown_line name (suc (length lines)) (c ∷ line)

  unfoldable pub show_option : Target → OptionScope → Bytes → Op W OptionError (Bytes × Bool)
  unfolding check_option_name check_target run_lines shown
  show_option t scope name = do
    guard refused (check_option_name name)
    guard invalid (check_target t)
    r ← attempt (run_lines out cfg (show_args t scope name))
    shown name r

  -- One line of the listing: its name and its value, if it is not blank.
  unfoldable pub read_option : Bytes → Dict → Op W OptionError Dict
  unfolding cut unquote_option_value decode_stored put
  read_option [] opts = done opts
  read_option (c ∷ line) opts =
      let p = cut b' ' (c ∷ line) in
      if not p.found
      then (do name ← decode_stored out cfg (c ∷ line); done (put name [] opts))
      else (do
        name ← decode_stored out cfg p.before
        value ← decode_stored out cfg (unquote_option_value p.after)
        done (put name value opts))

  -- The loop of `ShowOptions`.
  unfoldable pub read_options : List Bytes → Dict → Op W OptionError Dict
  unfolding read_option
  read_options [] opts = done opts
  read_options (line ∷ lines) opts = do opts' ← read_option line opts; read_options lines opts'

  listed : Result OptionError (List Bytes) → Op W OptionError Dict
  unfolding says_no_server says_missing read_options
  listed (err e) = if says_no_server e || says_missing e then done [] else fail e
  listed (ok lines) = read_options lines []

  unfoldable pub show_options : Target → OptionScope → Op W OptionError Dict
  unfolding check_target run_lines listed
  show_options t scope = do
    guard invalid (check_target t)
    r ← attempt (run_lines out cfg (list_args t scope))
    listed r
