-- ===== src/Tests/Text.antt =====
-- escape.go, vis.go, ids.go, control_cmds.go and client.go on concrete texts.
use gotmucks.Base.{
  true, false, ◌≤◌, [], ◌∷◌, ◌++◌, ◌≡◌, refl, arith, Bytes, Lacks, All, codes, none, List,
}
use gotmucks.Escape.{escape, unescape}
use gotmucks.Escape.RoundTrip.{unescape-escape}
use gotmucks.Vis.{vis_decode, vis_encode}
use gotmucks.Vis.RoundTrip.{vis_decode-vis_encode}
use gotmucks.Ids.{valid_id, window_sigil}
use gotmucks.Command.{args_line, line, check_line, break_from}
use gotmucks.Command.Quote.{quote_arg}
use gotmucks.Command.Quote.Unbroken.{IsUnbroken, quote_arg-IsUnbroken}
use gotmucks.Command.Sendable.{args_line-passes}
use gotmucks.Strings.{trim_suffix}
use gotmucks.Base.{ℕ, some, ◌<◌, ◌*◌}
use gotmucks.Base.Int.{pos}
use gotmucks.Ctlparse.Args.{Subscription, parse_subscription_changed}
use gotmucks.Command.Refresh.{
  check_subscribe_name, check_subscribe_name-parse, pause_after, pause_after-bounds, max_int32,
  second,
}
use gotmucks.Client.{without_return}
use gotmucks.Client.Lines.{Ended}
use gotmucks.Client.{undo_dollar_escape}
use gotmucks.Client.Dollar.{stored, undo_dollar_escape-stored}

-- An escape sequence, a backslash and a letter.
abbrev colour : Bytes
colour = 27 ∷ b'\\' ∷ b'm' ∷ []

escape-colour : escape colour ≡ codes "\\033\\134m"
unfolding escape
escape-colour = refl

unescape-escape_example : unescape (escape colour) ≡ colour
unescape-escape_example = unescape-escape colour

vis_decode-vis_encode_example : vis_decode (vis_encode colour) ≡ colour
vis_decode-vis_encode_example = vis_decode-vis_encode colour

window_ok : valid_id (codes "@12") window_sigil ≡ true
unfolding valid_id
window_ok = refl

-- A format with a separator, a quote and a comment sign in it.
abbrev awkward : Bytes
awkward = codes "#{a};'b c'"

args_line-passes_example :
    (s : Bytes) × (args_line (codes "rename" ∷ awkward ∷ []) ≡ line s) × (check_line s ≡ none)
args_line-passes_example = args_line-passes (codes "rename") (awkward ∷ []) (omega arith)

empty-IsUnbroken : IsUnbroken []
unfolding break_from
empty-IsUnbroken i start = refl

quote_arg-IsUnbroken_example : IsUnbroken (quote_arg awkward ++ [])
quote_arg-IsUnbroken_example = quote_arg-IsUnbroken awkward [] empty-IsUnbroken

abbrev two_lines : List Ended
two_lines = (codes "one", true) ∷ ([], false) ∷ []

two_lines-IsLine : All (λ e. Lacks b'\n' e.0 × (without_return e.0 ≡ e.0)) two_lines
unfolding trim_suffix
two_lines-IsLine = ground arith

title_ok : check_subscribe_name (codes "title") ≡ none
unfolding check_subscribe_name
title_ok = refl

check_subscribe_name-parse_example :
    (s : Subscription) × (parse_subscription_changed (codes "title $1 @2 0 %3 : vim") ≡ some s)
    × (s.name ≡ codes "title")
check_subscribe_name-parse_example =
    check_subscribe_name-parse (codes "title") (codes "$1 @2 0 %3 : vim") title_ok

pause_after-bounds_example :
    (s : ℕ) × (pause_after (pos 1500000000) ≡ some s)
    × (1 ≤ s)
    × (s ≤ max_int32)
    × (s * second < 2500000000)
    × (s < max_int32 → 1500000000 ≤ s * second)
pause_after-bounds_example = pause_after-bounds 1500000000 (omega arith)

undo_dollar_escape-stored_example : undo_dollar_escape (stored (codes "a$b\\$")) ≡ codes "a$b\\$"
undo_dollar_escape-stored_example = undo_dollar_escape-stored (codes "a$b\\$")
