-- ===== src/Tests/Objects.antt =====
-- The theorems on hooks, sessions and the configuration, at concrete runs of tmux.
use gotmucks.Base.{
  true, ◌≡◌, refl, sym, subst, arith, List, [], ◌∷◌, ◌++◌, Bytes, none, some, codes, All, map,
  bytes_eq,
}
use gotmucks.Base.Int.{pos, negsuc}
use gotmucks.Ids.{
  Target, session_target, check_target, check_id, valid_id, all_digits, session_sigil,
}
use gotmucks.Strings.{is_digit, has_prefix, index_any, split, trim_suffix}
use gotmucks.Config.{default_config, new_config}
use gotmucks.Config.Bounds.{
  IsUsable, settings, binary, event_buffer, close_timeout, new_config-IsUsable,
}
use gotmucks.Dict.{Dict, look}
use gotmucks.Client.{split_lines}
use gotmucks.Client.Lines.{written}
use gotmucks.Client.Visible.{ended}
use gotmucks.Client.Run.{ok}
use gotmucks.Client.Run.Once.{kept}
use gotmucks.Vis.Escapes.{Escapes, nothing, itself}
use gotmucks.Tests.Scripted.{scripted, tmux_3_4, client, asks_3_4, prints}
use gotmucks.Version.{escapes_dollar_on_write, is_pre_release}
use gotmucks.Client.Dollar.{stored}
use gotmucks.TmuxOptions.{target_args}
use gotmucks.Hooks.{hook_scopes, show_commands, show_hooks}
use gotmucks.Hooks.Reading.{Entry, bracketed, IsEntry, HookLines, nil, element}
use gotmucks.Hooks.Keyed.{PrintsAll, no_more, more}
use gotmucks.Hooks.Sole.{show_hooks-sole}
use gotmucks.Format.Rows.{printed}
use gotmucks.Sessions.{
  list_sessions, validate_command, validate_from, validate_shell, shell_metacharacters,
}
use gotmucks.Sessions.Listing.{
  Held, IsHeld, sessions_of, values_list, listing, list_sessions-printed,
}
use gotmucks.Sessions.Names.{IsElement, Avoids, validate_command-IsElement}

new_config-IsUsable_example :
    IsUsable
      (new_config (settings (binary [] ∷ event_buffer (negsuc 0) ∷ close_timeout (pos 0) ∷ [])))
new_config-IsUsable_example =
    new_config-IsUsable (binary [] ∷ event_buffer (negsuc 0) ∷ close_timeout (pos 0) ∷ [])

vim_valid : validate_command (codes "vim" ∷ []) ≡ none
unfolding validate_command validate_from validate_shell index_any
vim_valid = refl

validate_command-IsElement_example :
    All IsElement (codes "vim" ∷ [])
    × ((word : Bytes) → codes "vim" ∷ [] ≡ word ∷ [] → Avoids shell_metacharacters word)
validate_command-IsElement_example = validate_command-IsElement (codes "vim" ∷ []) vim_valid

abbrev bell : Entry
bell = record { name = codes "bell"; index = codes "0"; command = codes "ls" }

one_digit : all_digits (codes "0") ≡ true
unfolding all_digits is_digit
one_digit = refl

bell-IsEntry : IsEntry bell
bell-IsEntry = record {
  named = ground arith;
  unspaced = ground arith;
  plain = ground arith;
  unindexed = ground arith;
  counted = ground arith;
  decimal = one_digit;
}

abbrev session_1 : Target
session_1 = session_target (codes "$1")

session_1_checked : check_target session_1 ≡ none
unfolding check_target check_id valid_id all_digits is_digit
session_1_checked = refl

abbrev bell_line : Bytes
bell_line = bracketed bell ++ b' ' ∷ kept tmux_3_4 (codes "ls")

abbrev bell_output : Bytes
bell_output = written (ended (bell_line ∷ []))

-- The outputs of the three listings.
abbrev outputs : List Bytes
outputs = bell_output ∷ [] ∷ [] ∷ []

abbrev found_lines : List Bytes
found_lines = split_lines bell_output ++ (split_lines [] ++ (split_lines [] ++ []))

bell_found : found_lines ≡ bell_line ∷ []
unfolding split_lines split trim_suffix bytes_eq kept stored escapes_dollar_on_write is_pre_release
    has_prefix
bell_found = refl

bell_printed :
    PrintsAll scripted default_config
      (show_commands hook_scopes session_1)
      (client outputs)
      (client [])
      found_lines
unfolding show_commands target_args
bell_printed =
    more _ _ (client outputs) (client ([] ∷ [] ∷ [])) (client []) bell_output _
      (prints _ bell_output ([] ∷ [] ∷ []))
      (more _ _ (client ([] ∷ [] ∷ [])) (client ([] ∷ [])) (client []) [] _ (prints _ [] ([] ∷ []))
        (more _ _ (client ([] ∷ [])) (client []) (client []) [] _ (prints _ [] [])
          (no_more (client []))))

bell_listed : HookLines tmux_3_4 (bell ∷ []) found_lines
bell_listed =
    subst (HookLines tmux_3_4 (bell ∷ [])) (sym bell_found) (element bell [] [] bell-IsEntry nil)

show_hooks-sole_example :
    (found : Dict) × ((show_hooks scripted default_config session_1 (client outputs)).1 ≡ ok found)
    × (look (codes "bell") found ≡ some (codes "ls"))
show_hooks-sole_example =
    show_hooks-sole scripted default_config session_1 (client outputs) (client []) tmux_3_4 [] []
      bell found_lines session_1_checked bell_printed bell_listed asks_3_4 tt tt

abbrev main : Held
main = record {
  id = codes "$1";
  name = codes "m";
  windows = pos 2;
  created = pos 1700000000;
  activity = pos 1700000001;
  attached = pos 0;
  escaped = codes "m";
}

main_identified : valid_id (codes "$1") session_sigil ≡ true
unfolding valid_id all_digits is_digit
main_identified = refl

main_escaped : Escapes (kept tmux_3_4 (codes "m")) (codes "m")
unfolding kept stored escapes_dollar_on_write is_pre_release has_prefix
main_escaped = itself b'm' [] [] (omega arith) (omega arith) nothing

main-IsHeld : IsHeld tmux_3_4 main
main-IsHeld = record {
  identified = main_identified;
  named = main_escaped;
  windows_fit = omega arith;
  created_fit = omega arith;
  activity_fit = omega arith;
  attached_fit = omega arith;
}

abbrev main_output : Bytes
main_output = written (ended (map printed (values_list (main ∷ []))))

list_sessions-printed_example :
    (list_sessions scripted default_config (client (main_output ∷ []))).1
    ≡ ok (sessions_of (main ∷ []))
list_sessions-printed_example =
    list_sessions-printed scripted default_config (client (main_output ∷ [])) (client []) tmux_3_4
      (main ∷ []) (main-IsHeld, tt) (prints (listing scripted default_config) main_output [])
      asks_3_4
