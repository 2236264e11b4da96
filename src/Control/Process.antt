-- ===== src/Control/Process.antt =====
-- control.go: what the connection does about its tmux process: the checks before it is started, how
-- it ends, what is kept of its standard error, and what `Close` returns. What is waited for is a
-- parameter: which of the things waited for came first, and how the process ended.
pub mod Stderr
use gotmucks.Base.{
  ℕ, Bool, true, false, not, ◌&&◌, List, [], ◌∷◌, ◌++◌, Bytes, Option, none, some, ◌==◌,
  if◌then◌else◌,
}
use gotmucks.Base.Int.{ℤ, pos, ltb_ℤ, eqb_ℤ}
use gotmucks.Ids.{SessionId, IdError, check_id, session_sigil, session}
use gotmucks.Version.{Version, version_zero, at_least, minimum_version}
use gotmucks.Config.{Config, attach_target, control_args, is_empty}
use gotmucks.Client.Run.{
  Outside, Op, invalid, refused, ◌>>=◌, ◌>>◌, done, fail, guard, VersionRefusal, too_old,
  client_version,
}
use gotmucks.Control.{Conn}
use gotmucks.Control.Queue.{TerminalError, terminal_err}

-- The target that `Connect` checks, if there is one.
unfoldable pub check_attach : SessionId → Option IdError
unfolding check_id
check_attach [] = none
check_attach (c ∷ s) = check_id (c ∷ s) session_sigil session

module _ {W : Type 0} (out : Outside W) (cfg : Config) where
  check_floor : Version → Op W VersionRefusal Version
  unfolding at_least
  check_floor v = if not (at_least v minimum_version) then fail (refused (too_old v)) else done v

  checked_version : Bool → Op W VersionRefusal Version
  unfolding client_version check_floor
  checked_version true = done (version_zero [])
  checked_version false = do v ← client_version out cfg; check_floor v

  -- `Connect` up to the process: the version that is kept, and the arguments of the process.
  unfoldable pub prepare : Op W VersionRefusal (Version × List Bytes)
  unfolding check_attach attach_target checked_version control_args
  prepare = do
    guard invalid (check_attach (attach_target cfg))
    v ← checked_version cfg.skip_version_check
    done (v, control_args cfg)

-- What the second wait of `awaitStartup` wakes for.
pub data Woken : Type 0 where
  released : Woken
  reader_ended : Woken
  cancelled : Bytes → Woken

pub data StartupError : Type 0 where
  connection : TerminalError → StartupError
  context : Bytes → StartupError

unfoldable pub await_startup : Conn → Woken → Option StartupError
unfolding terminal_err
await_startup cc woken = if cc.started then none else elim woken [
  | released ↦ none
  | reader_ended ↦ some (connection (terminal_err cc))
  | cancelled e ↦ some (context e)
]

-- How `cmd.Wait` ended: with no error, with an exit status, or with another error.
pub data Waited : Type 0 where
  fine : Waited
  status : ℤ → Waited
  broken : Bytes → Waited

unfoldable pub clean_exit_code : ℤ → Bool → Bool
clean_exit_code code killed = if ltb_ℤ code (pos 0) then killed else eqb_ℤ code (pos 0)

unfoldable pub is_clean_exit : Waited → Bool → Bool
unfolding clean_exit_code
is_clean_exit fine killed = false
is_clean_exit (status code) killed = clean_exit_code code killed
is_clean_exit (broken e) killed = false

-- `reap`, the first time.
unfoldable pub reap : Waited → Bool → Option Waited
unfolding is_clean_exit
reap fine killed = none
reap (status code) killed = if is_clean_exit (status code) killed then none else some (status code)
reap (broken e) killed = some (broken e)

-- Whether the reader has ended before `Close`, within its first wait, and within its second.
pub record Ending : Type 0 where
  pub before : Bool
  pub in_time : Bool
  pub once_killed : Bool
  pub waited : Waited

pub data CloseError : Type 0 where
  not_exited : CloseError
  wait_error : Waited → CloseError

-- What `Close` has done: whether it detached, whether it killed the process, and its error.
pub record Closed : Type 0 where
  pub detached : Bool
  pub killed : Bool
  pub error : Option CloseError

abbrev reaped : Waited → Bool → Option CloseError
unfolding reap
reaped w killed = elim (reap w killed) [ none ↦ none | some e ↦ some (wait_error e) ]

-- `Close`, the first time; later it returns no error and does nothing.
unfoldable pub close : Ending → Closed
unfolding reaped
close e =
    if e.before
    then record { detached = false; killed = false; error = reaped e.waited false }
    else if e.in_time
    then record { detached = true; killed = false; error = reaped e.waited false }
    else if e.once_killed
    then record { detached = true; killed = true; error = reaped e.waited true }
    else record { detached = true; killed = true; error = some not_exited }
