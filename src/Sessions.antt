-- ===== src/Sessions.antt =====
-- session.go: how sessions are listed, made, killed and renamed.
mod Record
pub mod Names
pub mod Listing
pub mod Absence
use gotmucks.Base.{
  ℕ, suc, Bool, true, false, not, ◌||◌, ◌==◌, List, [], ◌∷◌, ◌++◌, Bytes, Option, none, some, codes,
  if◌then◌else◌, ltb, length, bytes_eq, contains_byte,
}
use gotmucks.Base.Int.{ℤ, pos, negsuc, ltb_ℤ}
use gotmucks.Strings.{index_any}
use gotmucks.Strings.Decimal.{itoa}
use gotmucks.Vis.{vis_encode}
use gotmucks.Ids
use gotmucks.Ids.{SessionId, check_id, session_sigil, session, parse_session_id, trim_id}
use gotmucks.Dict.{Dict, look}
use gotmucks.Version.{compare_bytes}
use gotmucks.Config.{Config}
use gotmucks.Errors.{no_session}
use gotmucks.Format.{Row, escape_format}
use gotmucks.Format.Access.{Field, value, wrong}
use gotmucks.Format.Query.{
  Refusal, bad_field, session_name, empty_env_name, env_name, empty_element, unsafe_element,
  shell_command, query,
}
use gotmucks.Client.Run.{
  Outside, Op, Result, ok, err, Failure, invalid, absent, refused, ◌>>=◌, ◌>>◌, done, fail, guard,
  attempt, run, run_ok, decode_stored, says_no_server, says_missing,
}
unfoldable pub use Record.*

pub record NewSessionOptions : Type 0 where
  pub name : Bytes
  pub start_dir : Bytes
  pub env : Dict
  pub command : List Bytes
  pub window_name : Bytes
  pub width : ℤ
  pub height : ℤ

-- An option with its value, unless the value is empty.
abbrev text_option : Bytes → Bytes → Bytes → List Bytes
text_option flag [] v = []
text_option flag (c ∷ s) v = flag ∷ v ∷ []

abbrev pub number_option : Bytes → ℤ → List Bytes
unfolding itoa
number_option flag n = if ltb_ℤ (pos 0) n then flag ∷ itoa n ∷ [] else []

-- `sort.Strings` of the keys.
unfoldable pub insert : Bytes → List Bytes → List Bytes
unfolding compare_bytes
insert k [] = k ∷ []
insert k (l ∷ ls) =
    let rest = insert k ls in if ltb_ℤ (pos 0) (compare_bytes k l) then l ∷ rest else k ∷ l ∷ ls

unfoldable pub sorted_keys : Dict → List Bytes
unfolding insert
sorted_keys [] = []
sorted_keys ((k, v) ∷ m) = insert k (sorted_keys m)

abbrev text_or_empty : Option Bytes → Bytes
text_or_empty none = []
text_or_empty (some v) = v

-- The loop over the sorted keys.
unfoldable pub env_args : Dict → List Bytes → List Bytes
unfolding look
env_args env [] = []
env_args env (k ∷ ks) = codes "-e" ∷ (k ++ b'=' ∷ text_or_empty (look k env)) ∷ env_args env ks

abbrev command_args : List Bytes → List Bytes
command_args [] = []
command_args (c ∷ cs) = codes "--" ∷ c ∷ cs

unfoldable pub new_session_args : NewSessionOptions → List Bytes
unfolding escape_format vis_encode sorted_keys env_args
new_session_args o =
    codes "new-session"
    ∷ codes "-d"
    ∷ codes "-P"
    ∷ codes "-F"
    ∷ codes "#{session_id}"
    ∷ (text_option (codes "-s") o.name (escape_format o.name)
        ++ (text_option (codes "-n") o.window_name (escape_format (vis_encode o.window_name))
            ++ (text_option (codes "-c") o.start_dir (escape_format o.start_dir)
                ++ (number_option (codes "-x") o.width
                    ++ (number_option (codes "-y") o.height
                        ++ (env_args o.env (sorted_keys o.env) ++ command_args o.command))))))

unfoldable pub check_session_name : Bytes → Option Refusal
unfolding index_any
check_session_name name = elim (index_any name (codes ":.")) [
  | none ↦ none
  | some i ↦ some (session_name name i)
]

-- A text that is valid UTF-8 has no colon or dot within a longer character.
unfoldable pub session_name_as_stored : Bytes → Bytes
session_name_as_stored [] = []
session_name_as_stored (c ∷ s) =
    (if c == b':' || c == b'.' then b'_' else c) ∷ session_name_as_stored s

-- Go goes over a map in any order; here it is that of the list.
unfoldable pub validate_env : Dict → Option Refusal
unfolding contains_byte
validate_env [] = none
validate_env (([], v) ∷ m) = some empty_env_name
validate_env ((c ∷ k, v) ∷ m) =
    let rest = validate_env m in
    if contains_byte b'=' (c ∷ k) || contains_byte 0 (c ∷ k) then some (env_name (c ∷ k)) else rest

-- The loop of `validateCommand` at an index.
unfoldable pub validate_from : ℕ → List Bytes → Option Refusal
unfolding contains_byte
validate_from i [] = none
validate_from i ([] ∷ args) = some (empty_element i)
validate_from i ((c ∷ arg) ∷ args) =
    let rest = validate_from (suc i) args in
    let a = c ∷ arg in
    if contains_byte 0 a || contains_byte b'\n' a || contains_byte 13 a
    then some (unsafe_element i)
    else rest

abbrev pub shell_metacharacters : Bytes
shell_metacharacters = codes " \t;&|<>()$`\"'\\*?[]{}~#!\n" ++ 13 ∷ []

-- What a shell would read in a command of one element.
unfoldable pub validate_shell : List Bytes → Option Refusal
unfolding index_any
validate_shell [] = none
validate_shell (c ∷ d ∷ cs) = none
validate_shell (c ∷ []) = elim (index_any c shell_metacharacters) [
  | none ↦ none
  | some i ↦ some (shell_command c i)
]

unfoldable pub validate_command : List Bytes → Option Refusal
unfolding validate_from validate_shell
validate_command cmd = elim (validate_from 0 cmd) [ some e ↦ some e | none ↦ validate_shell cmd ]

-- The loop of `Session` over the listing.
unfoldable pub find_session : SessionId → List Session → Option Session
unfolding bytes_eq
find_session id [] = none
find_session id (s ∷ ss) =
    let rest = find_session id ss in if bytes_eq s.id id then some s else rest

-- The identifier that `new-session` printed.
abbrev printed_id : {W : Type 0} → Ids.Parsed SessionId → Op W Refusal SessionId
printed_id (Ids.ok id) = done id
printed_id (Ids.err e) = fail (invalid e)

module _ {W : Type 0} (out : Outside W) (cfg : Config) where
  -- The loop of `ListSessions`.
  unfoldable pub read_sessions : List Row → Op W Refusal (List Session)
  unfolding session_from_row decode_stored
  read_sessions [] = done []
  read_sessions (r ∷ rs) = elim (session_from_row r) [
    | wrong e ↦ fail (refused (bad_field e))
    | value s ↦ do
      name ← decode_stored out cfg s.name
      rest ← read_sessions rs
      done (record s { name = name } ∷ rest)
  ]

  unfoldable pub list_sessions : Op W Refusal (List Session)
  unfolding query read_sessions
  list_sessions = do rows ← query out cfg (codes "list-sessions") session_spec; read_sessions rows

  unfoldable pub session_by_id : SessionId → Op W Refusal Session
  unfolding check_id list_sessions find_session
  session_by_id id = do
    guard invalid (check_id id session_sigil session)
    ss ← list_sessions
    elim (find_session id ss) [ some s ↦ done s | none ↦ fail (absent no_session id) ]

  abbrev pub gone : {R : Type 0} → Failure R → Bool
  unfolding says_no_server says_missing
  gone e = says_no_server e || says_missing e

  -- The session that was made, or no more than its name if it is gone already.
  made : SessionId → Bytes → Result Refusal Session → Op W Refusal Session
  made id name (ok s) = done s
  made id name (err e) =
      if gone e
      then done (record {
        id = id;
        name = name;
        windows = pos 0;
        created = none;
        activity = none;
        attached = pos 0;
      })
      else fail e

  unfoldable pub new_session : NewSessionOptions → Op W Refusal Session
  unfolding check_session_name validate_env validate_command new_session_args run trim_id
      session_by_id made
  new_session o = do
    guard refused (check_session_name o.name)
    guard refused (validate_env o.env)
    guard refused (validate_command o.command)
    printed ← run out cfg (new_session_args o)
    id ← printed_id (parse_session_id (trim_id printed))
    r ← attempt (session_by_id id)
    made id o.name r

  has : Result Refusal Bytes → Op W Refusal Bool
  has (ok _) = done true
  has (err e) = if gone e then done false else fail e

  unfoldable pub has_session : SessionId → Op W Refusal Bool
  unfolding check_id run has
  has_session id = do
    guard invalid (check_id id session_sigil session)
    r ← attempt (run out cfg (codes "has-session" ∷ codes "-t" ∷ id ∷ []))
    has r

  killed : Result Refusal (Unit {0}) → Op W Refusal (Unit {0})
  killed (ok _) = done tt
  killed (err e) = if gone e then done tt else fail e

  unfoldable pub kill_session : SessionId → Op W Refusal (Unit {0})
  unfolding check_id run_ok killed
  kill_session id = do
    guard invalid (check_id id session_sigil session)
    r ← attempt (run_ok out cfg (codes "kill-session" ∷ codes "-t" ∷ id ∷ []))
    killed r

  unfoldable pub rename_session : SessionId → Bytes → Op W Refusal (Unit {0})
  unfolding check_id check_session_name escape_format run_ok
  rename_session id name = do
    guard invalid (check_id id session_sigil session)
    guard refused (check_session_name name)
    run_ok out cfg (codes "rename-session" ∷ codes "-t" ∷ id ∷ codes "--" ∷ escape_format name ∷ [])
