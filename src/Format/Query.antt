-- ===== src/Format/Query.antt =====
-- format.go: a command that is asked for a format, and the rows that it prints.
use gotmucks.Base.{ℕ, ◌||◌, List, [], ◌∷◌, ◌++◌, Bytes, codes, if◌then◌else◌}
use gotmucks.Config.{Config}
use gotmucks.Format.{FormatSpec, Row, arg, Parsed, rows, empty_spec, short_line, parse_rows}
use gotmucks.Format.Access.{FieldError}
use gotmucks.Client.Run.{
  Outside, Op, Result, ok, err, refused, ◌>>=◌, done, fail, attempt, run_lines, says_no_server,
  says_missing,
}

-- The refusals of the operations on sessions, windows and panes.
pub data Refusal : Type 0 where
  no_spec : Refusal
  -- the number of the line, the fields it has, the fields wanted, and the line
  too_short : ℕ → ℕ → ℕ → Bytes → Refusal
  bad_field : FieldError → Refusal
  -- the index of the colon or dot
  session_name : Bytes → ℕ → Refusal
  empty_env_name : Refusal
  env_name : Bytes → Refusal
  -- the index of the element
  empty_element unsafe_element : ℕ → Refusal
  -- the index of the byte that a shell would read
  shell_command : Bytes → ℕ → Refusal

module _ {W : Type 0} (out : Outside W) (cfg : Config) where
  parsed : Parsed → Op W Refusal (List Row)
  parsed (rows rs) = done rs
  parsed empty_spec = fail (refused no_spec)
  parsed (short_line i n m line) = fail (refused (too_short i n m line))

  -- Where there is no server, or the object is not there, there are no rows.
  queried : FormatSpec → Result Refusal (List Bytes) → Op W Refusal (List Row)
  unfolding parsed says_no_server says_missing parse_rows
  queried spec (err e) = if says_no_server e || says_missing e then done [] else fail e
  queried spec (ok lines) = parsed (parse_rows spec lines)

  unfoldable pub query_args : FormatSpec → List Bytes → Op W Refusal (List Row)
  unfolding queried run_lines arg
  query_args [] args = fail (refused no_spec)
  query_args (f ∷ spec) args = do
    r ← attempt (run_lines out cfg (args ++ codes "-F" ∷ arg (f ∷ spec) ∷ []))
    queried (f ∷ spec) r

  unfoldable pub query : Bytes → FormatSpec → Op W Refusal (List Row)
  unfolding query_args
  query cmd spec = query_args spec (cmd ∷ [])
