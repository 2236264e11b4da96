-- ===== src/Tests/Queries.antt =====
-- format.go, keys.go, version.go and internal/ctlparse/ctlparse.go on concrete inputs.
use gotmucks.Base.{
  ℕ, true, false, List, [], ◌∷◌, ◌≡◌, ◌≢◌, refl, arith, Bytes, All, codes, some, none, map,
}
use gotmucks.Base.Int.{pos, negsuc}
use gotmucks.Strings.{has_prefix, cut, cut_text, fields, is_digit}
use gotmucks.Ids.{valid_id, pane_sigil}
use gotmucks.Format.{FormatSpec, rows, parse_rows, escape_format}
use gotmucks.Format.Rows.{Values, IsRow, printed, row_of, parse_rows-printed}
use gotmucks.Format.Reads.{Answers, parse_rows-Answers}
use gotmucks.Base.{◌↔◌}
use gotmucks.Format.Template.{literal_text, literal_text-escape_format}
use gotmucks.Keys.{Key, literal, enter, batch_keys, key_valid}
use gotmucks.Keys.Runs.{keys_of, IsRun, Alternates, batch_keys-runs}
use gotmucks.Keys.Send.{
  send_keys, records, commands, IsSendable, send_keys-records, send_keys_refused,
}
use gotmucks.Version.{Version, compare, compare_bytes}
use gotmucks.Version.Order.{HasNarrow, IsUpTo, compare_trans}
use gotmucks.Ctlparse.{classify}
use gotmucks.Base.{false}
use gotmucks.Strings.{is_digit}
use gotmucks.Strings.{trim_space, cut_prefix, parse_int, digits_from, join}
use gotmucks.Base.{contains_byte}
use gotmucks.Format.{arg, is_bare_var, bare_bytes, bare_byte, row_safe_var, format_var}
use gotmucks.Version.{parse_version, leading_digits, after_last_dash}
use gotmucks.Keys.{key_args, hex_args, hex_key}
use gotmucks.Ctlparse.Shape.{notifying, IsNotification, classify-IsNotification_iff}
use gotmucks.Ctlparse.Args.{
  has_sigil_and_digits, Subscription, no_value, parse_subscription_changed, subscription_named,
  subscription_fields, subscription_field, digits_only,
}

abbrev pane_columns : FormatSpec
pane_columns = codes "pane_id" ∷ codes "pane_current_path" ∷ []

-- A path with a tab in it.
abbrev tabbed : List Values
tabbed = (record { front = codes "%1" ∷ []; last = codes "/a\tb" }) ∷ []

tabbed-IsRow : All (IsRow pane_columns) tabbed
tabbed-IsRow = (record { width = refl; no_tab = omega arith }, tt)

parse_rows-printed_example :
    parse_rows pane_columns (map printed tabbed) ≡ rows (map (row_of pane_columns) tabbed)
parse_rows-printed_example =
    parse_rows-printed (codes "pane_id") (codes "pane_current_path" ∷ []) tabbed tabbed-IsRow

literal_text-escape_format_example :
    literal_text (escape_format (codes "v#{host}")) ≡ some (codes "v#{host}")
literal_text-escape_format_example = literal_text-escape_format (codes "v#{host}")

abbrev two_kinds : List Key
two_kinds = literal (codes "ls") ∷ literal (codes " -l") ∷ enter ∷ []

batch_keys-runs_example :
    (keys_of (batch_keys two_kinds) ≡ two_kinds)
    × All IsRun (batch_keys two_kinds)
    × Alternates (batch_keys two_kinds)
batch_keys-runs_example = batch_keys-runs two_kinds

pane_ok : valid_id (codes "%1") pane_sigil ≡ true
unfolding valid_id
pane_ok = refl

two_kinds-IsSendable : IsSendable two_kinds
unfolding key_valid
two_kinds-IsSendable = (refl, (refl, (refl, tt)))

send_keys-records_example :
    send_keys records [] (codes "%1") two_kinds
    ≡ (commands (codes "%1") (batch_keys two_kinds), none)
send_keys-records_example = send_keys-records [] (codes "%1") two_kinds pane_ok two_kinds-IsSendable

abbrev with_empty : List Key
with_empty = enter ∷ literal [] ∷ []

with_empty_refused : ¬ IsSendable with_empty
unfolding key_valid
with_empty_refused h = ground (arith, h)

send_keys_refused_example :
    ((send_keys records [] (codes "%1") with_empty).0 ≡ [])
    × ((send_keys records [] (codes "%1") with_empty).1 ≢ none)
send_keys_refused_example = send_keys_refused records [] (codes "%1") with_empty with_empty_refused

-- 3.n with a suffix.
abbrev three : ℕ → Bytes → Version
three n suffix = record {
  major = pos 3;
  minor = pos n;
  suffix = suffix;
  next = false;
  raw = [];
  unknown = false;
}

three-HasNarrow : HasNarrow (three 4 [])
three-HasNarrow = record { major = (omega arith, omega arith); minor = (omega arith, omega arith) }

candidate-HasNarrow : HasNarrow (three 4 (codes "-rc1"))
candidate-HasNarrow = record {
  major = (omega arith, omega arith);
  minor = (omega arith, omega arith);
}

revision-HasNarrow : HasNarrow (three 4 (codes "a"))
revision-HasNarrow = record {
  major = (omega arith, omega arith);
  minor = (omega arith, omega arith);
}

candidate_older : compare (three 4 (codes "-rc1")) (three 4 []) ≡ negsuc 0
unfolding compare has_prefix
candidate_older = refl

revision_newer : compare (three 4 []) (three 4 (codes "a")) ≡ negsuc 0
unfolding compare has_prefix compare_bytes
revision_newer = refl

candidate-IsUpTo : IsUpTo (compare (three 4 (codes "-rc1")) (three 4 []))
candidate-IsUpTo = rw candidate_older refl

revision-IsUpTo : IsUpTo (compare (three 4 []) (three 4 (codes "a")))
revision-IsUpTo = rw revision_newer refl

compare_trans_example : IsUpTo (compare (three 4 (codes "-rc1")) (three 4 (codes "a")))
compare_trans_example =
    compare_trans (three 4 (codes "-rc1")) (three 4 []) (three 4 (codes "a")) candidate-HasNarrow
      three-HasNarrow revision-HasNarrow candidate-IsUpTo revision-IsUpTo

abbrev titled : Subscription
titled = record (no_value (codes "t")) { session = codes "$1"; value = codes "v" }

titled_parsed : parse_subscription_changed (codes "t $1 : v") ≡ some titled
unfolding parse_subscription_changed subscription_named subscription_fields subscription_field
    has_sigil_and_digits digits_only is_digit cut cut_text fields
titled_parsed = refl

path_template : arg (codes "pane_id" ∷ codes "#H" ∷ []) ≡ codes "#{s/\t/ /;s/\n/ /:pane_id}\t#H"
unfolding arg is_bare_var bare_bytes bare_byte row_safe_var format_var contains_byte join
path_template = refl

release_parsed :
    parse_version (codes "tmux 3.2a\n")
    ≡ some (record {
      major = pos 3;
      minor = pos 2;
      suffix = codes "a";
      next = false;
      raw = codes "tmux 3.2a";
      unknown = false;
    })
unfolding parse_version trim_space fields has_prefix cut_prefix cut parse_int is_digit
    leading_digits after_last_dash digits_from
release_parsed = refl

byte_args : key_args (hex_key (0x1b ∷ [])) ≡ codes "1b" ∷ []
unfolding key_args hex_args
byte_args = refl

parse_rows-Answers_example :
    Answers pane_columns
      (codes "%1\t/a\tb" ∷ codes "short" ∷ [])
      (parse_rows pane_columns (codes "%1\t/a\tb" ∷ codes "short" ∷ []))
parse_rows-Answers_example =
    parse_rows-Answers pane_columns (codes "%1\t/a\tb" ∷ codes "short" ∷ [])

classify-IsNotification_iff_example :
    (classify (codes "%window-add @1")
      ≡ notifying (codes "%window-add @1") (codes "window-add") (codes "@1"))
    ↔ IsNotification (codes "%window-add @1") (codes "window-add") (codes "@1")
classify-IsNotification_iff_example =
    classify-IsNotification_iff (codes "%window-add @1") (codes "window-add") (codes "@1")
