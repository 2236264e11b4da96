-- ===== src/Tests/Running.antt =====
-- The theorems on options, at concrete runs of tmux.
use gotmucks.Base.{
  true, ◌≡◌, ◌↔◌, refl, arith, List, [], ◌∷◌, ◌++◌, Bytes, none, codes, contains_byte, bytes_eq,
}
use gotmucks.Ids.{Target, pane_target, check_target, check_id, valid_id, all_digits}
use gotmucks.Strings.{is_digit, has_prefix, split, trim_suffix}
use gotmucks.Config.{default_config}
use gotmucks.Dict.{Dict, look, last_of}
use gotmucks.Version.{escapes_dollar_on_write, is_pre_release}
use gotmucks.Client.Dollar.{stored}
use gotmucks.Client.{split_lines}
use gotmucks.Client.Lines.{written}
use gotmucks.Client.Visible.{ended}
use gotmucks.Client.Run.{ok, err, refused}
use gotmucks.Client.Run.Once.{kept}
use gotmucks.Tests.Scripted.{scripted, tmux_3_4, client, asks_3_4, prints}
use gotmucks.TmuxOptions.{
  session, OptionError, array_of, check_option_name, list_args, show_args, show_options,
  show_option, set_option_scoped, unset_option, split_array_element, args_escape_quoted,
}
use gotmucks.TmuxOptions.Value.{Printed, single}
use gotmucks.TmuxOptions.Listing.{Shown, valued, flag, Listing, nil, cons}
use gotmucks.TmuxOptions.Reading.{show_options-Listing}
use gotmucks.TmuxOptions.Elements.{Element, split_array_element_iff}
use gotmucks.TmuxOptions.Single.{show_option-Shown, show_option_array}
use gotmucks.TmuxOptions.Checked.{IsName, IsTarget, BadName, AllRefuse, option_operations_checked}
use gotmucks.TmuxOptions.{set_args, unset_args}
use gotmucks.Client.Run.{run_ok, invalid}
use gotmucks.Base.{◌⊎◌}
use gotmucks.Ids.{IdError}

abbrev pane_1 : Target
pane_1 = pane_target (codes "%1")

pane_1_checked : check_target pane_1 ≡ none
unfolding check_target check_id valid_id all_digits is_digit
pane_1_checked = refl

status_named : check_option_name (codes "status") ≡ none
unfolding check_option_name
status_named = refl

user_named : check_option_name (codes "@u") ≡ none
unfolding check_option_name
user_named = refl

hash_special : contains_byte b'#' args_escape_quoted ≡ true
unfolding contains_byte
hash_special = refl

-- The value "#", which tmux prints behind a backslash.
abbrev user_line : Bytes
user_line = kept tmux_3_4 (codes "@u") ++ b' ' ∷ b'\\' ∷ b'#' ∷ []

user-Printed : Printed (kept tmux_3_4 (codes "#")) (b'\\' ∷ b'#' ∷ [])
unfolding kept stored escapes_dollar_on_write is_pre_release has_prefix
user-Printed = single b'#' hash_special

user-Shown : Shown tmux_3_4 (codes "@u") (codes "#") user_line
user-Shown = valued (codes "@u") (codes "#") (b'\\' ∷ b'#' ∷ []) user_named user-Printed

-- A flag option and a user option.
abbrev two_options : Dict
two_options = (codes "status", []) ∷ (codes "@u", codes "#") ∷ []

abbrev two_lines : List Bytes
two_lines = kept tmux_3_4 (codes "status") ∷ user_line ∷ []

two_listed : Listing tmux_3_4 two_options two_lines
two_listed =
    cons (codes "status") [] (kept tmux_3_4 (codes "status")) _ _
      (flag (codes "status") status_named)
      (cons (codes "@u") (codes "#") user_line [] [] user-Shown nil)

show_options-Listing_example :
    (opts : Dict) × ((show_options scripted default_config pane_1 session
        (client (written (ended two_lines) ∷ []))).1
      ≡ ok opts)
    × ((name : Bytes) → look name opts ≡ last_of name two_options none)
show_options-Listing_example =
    show_options-Listing scripted default_config (client (written (ended two_lines) ∷ []))
      (client []) tmux_3_4 pane_1 session two_options two_lines pane_1_checked two_listed
      (prints (list_args pane_1 session) (written (ended two_lines)) []) asks_3_4

show_option-Shown_example :
    (show_option scripted default_config pane_1 session
      (codes "@u")
      (client (written (ended (user_line ∷ [])) ∷ []))).1
    ≡ ok (codes "#", true)
show_option-Shown_example =
    show_option-Shown scripted default_config (client (written (ended (user_line ∷ [])) ∷ []))
      (client []) tmux_3_4 pane_1 session (codes "@u") (codes "#") user_line user_named
      pane_1_checked user-Shown
      (prints (show_args pane_1 session (codes "@u")) (written (ended (user_line ∷ []))) [])
      asks_3_4

one_digit : all_digits (codes "0") ≡ true
unfolding all_digits is_digit
one_digit = refl

format-Element : Element (codes "status-format") (codes "status-format[0]")
format-Element = record {
  index = codes "0";
  named = ground arith;
  counted = ground arith;
  decimal = one_digit;
  form = refl;
}

format_named : check_option_name (codes "status-format") ≡ none
unfolding check_option_name
format_named = refl

abbrev format_output : Bytes
format_output = codes "status-format[0] a\nstatus-format[1] b\n"

format_lines :
    split_lines format_output
    ≡ (codes "status-format[0]" ++ b' ' ∷ codes "a") ∷ codes "status-format[1] b" ∷ []
unfolding split_lines split trim_suffix bytes_eq
format_lines = refl

show_option_array_example :
    (show_option scripted default_config pane_1 session
      (codes "status-format")
      (client (format_output ∷ []))).1
    ≡ err (refused (array_of 2))
show_option_array_example =
    show_option_array scripted default_config (client (format_output ∷ [])) (client []) pane_1
      session (codes "status-format") (codes "status-format[0]") (codes "a") format_output
      (codes "status-format[1] b" ∷ []) format_named pane_1_checked format-Element (ground arith)
      format_lines (prints (show_args pane_1 session (codes "status-format")) format_output [])

split_array_element_iff_example :
    (split_array_element (codes "@weird[x]") ≡ (codes "@weird", true))
    ↔ Element (codes "@weird") (codes "@weird[x]")
split_array_element_iff_example = split_array_element_iff (codes "@weird[x]") (codes "@weird")

option_operations_checked_example :
    (IsName (codes "@a b")
      × IsTarget pane_1
      × (set_option_scoped scripted default_config pane_1 session (codes "@a b") [] (client [])
          ≡ run_ok scripted default_config (set_args pane_1 session (codes "@a b") []) (client []))
      × (unset_option scripted default_config pane_1 session (codes "@a b") (client [])
          ≡ run_ok scripted default_config (unset_args pane_1 session (codes "@a b")) (client [])))
    ⊎ (((e : OptionError) × BadName (codes "@a b") e
          × AllRefuse scripted default_config
              (client [])
              pane_1
              session
              (codes "@a b")
              []
              (refused e))
        ⊎ ((e : IdError) × IsName (codes "@a b")
            × (¬ IsTarget pane_1)
            × AllRefuse scripted default_config
                (client [])
                pane_1
                session
                (codes "@a b")
                []
                (invalid e)))
option_operations_checked_example =
    option_operations_checked scripted default_config (client []) pane_1 session (codes "@a b") []
