-- ===== src/Client/Run.antt =====
-- client.go: running tmux commands, what their failures are, and the version that a client asks for
-- once. The operating system is a parameter (`Outside`): running a process takes what there is
-- outside to what there is afterwards. A client that is shared keeps its version under a
-- `sync.Once`, so an operation here takes the client's state and returns it.
pub mod Once
use gotmucks.Base.{
  ℕ, Bool, true, false, not, List, [], ◌∷◌, ◌++◌, Bytes, Option, none, some, codes, if◌then◌else◌,
}
use gotmucks.Base.Int.{ℤ, pos, negsuc}
use gotmucks.Strings.{trim_space}
use gotmucks.Ids.{IdError}
use gotmucks.Config.{Config, argv, tmux_args, environ}
use gotmucks.Errors.{
  Sentinel, Cause, no_cause, sentinel, other, ExitError, no_server, is_no_server_stderr,
  missing_target_err, is_no_server, is_missing_target,
}
use gotmucks.Client.{escape_trailing_semicolon, split_lines, undo_dollar_escape}
use gotmucks.Version.{
  Version, version_zero, minimum_version, at_least, parse_version, escapes_dollar_on_write,
}

pub record Invocation : Type 0 where
  pub binary : Bytes
  pub args : List Bytes
  -- `none` is the environment of the parent
  pub env : Option (List Bytes)

-- The refusal of `CheckVersion`, with the version found.
pub data VersionRefusal : Type 0 where
  too_old : Version → VersionRefusal

-- How `cmd.Run` ended; an error that is no `*exec.ExitError` is its message.
pub data Ended : Type 0 where
  succeeded : Ended
  exited : ℤ → Ended
  not_run : Bytes → Ended

pub record Finished : Type 0 where
  pub stdout : Bytes
  pub stderr : Bytes
  pub ended : Ended
  -- the context's error after the run
  pub context_error : Option Bytes

pub record Outside (W : Type 0) : Type 0 where
  pub exec : W → Invocation → W × Finished
  pub parent_env : List Bytes
  -- `strings.ToLower` of a text that is not ASCII
  pub unicode_lower : Bytes → Bytes

-- The errors of an operation; `R` are the refusals of its own.
pub data Failure (R : Type 0) : Type 0 where
  exit : ExitError → Failure R
  invalid : IdError → Failure R
  -- a listing does not have the object with this identifier
  absent : Sentinel → Bytes → Failure R
  -- `ParseVersion` of an empty text
  no_version : Failure R
  refused : R → Failure R

pub data Result (R A : Type 0) : Type 0 where
  ok : A → Result R A
  err : Failure R → Result R A

pub record Client (W : Type 0) : Type 0 where
  pub world : W
  -- the version, once tmux has been asked for it
  pub version : Option Version

abbrev pub Op : Type 0 → Type 0 → Type 0 → Type 0
Op W R A = Client W → Client W × Result R A

abbrev pub and_then :
    {W R A B : Type 0} → Client W × Result R A → (A → Op W R B) → Client W × Result R B
and_then (c, ok a) f = f a c
and_then (c, err e) f = (c, err e)

infixl 5 ◌>>=◌ ◌>>◌
abbrev pub ◌>>=◌ : {W R A B : Type 0} → Op W R A → (A → Op W R B) → Op W R B
◌>>=◌ m f c = and_then (m c) f

abbrev pub ◌>>◌ : {W R A B : Type 0} → Op W R A → Op W R B → Op W R B
m >> k = m >>= λ _. k

abbrev pub done : {W R A : Type 0} → A → Op W R A
done a c = (c, ok a)

abbrev pub fail : {W R A : Type 0} → Failure R → Op W R A
fail e c = (c, err e)

-- A check that passes where there is no error.
abbrev pub guard : {W R E : Type 0} → (E → Failure R) → Option E → Op W R (Unit {0})
guard f none = done tt
guard f (some e) = fail (f e)

-- The errors, other than those of the operation itself, that an operation may take for an answer.
abbrev pub attempt : {W R A : Type 0} → Op W R A → Op W R (Result R A)
attempt m c = let (c', r) = m c in (c', ok r)

abbrev server_gone : Sentinel → Bool
server_gone no_server = true
server_gone _ = false

-- `errors.Is(err, ErrNoServer)`.
unfoldable pub says_no_server : {R : Type 0} → Failure R → Bool
unfolding is_no_server
says_no_server (exit e) = is_no_server e.cause
says_no_server (absent s id) = server_gone s
says_no_server _ = false

-- `isMissingTarget`.
unfoldable pub says_missing : {R : Type 0} → Failure R → Bool
unfolding is_missing_target
says_missing (exit e) = is_missing_target e.cause
says_missing (absent s id) = is_missing_target (sentinel s)
says_missing _ = false

unfoldable pub exit_code : Ended → ℤ
exit_code succeeded = negsuc 0
exit_code (exited n) = n
exit_code (not_run e) = negsuc 0

-- The cause of a failed run that no context ended.
unfoldable pub cause_of : (Bytes → Bytes) → Ended → Bytes → Cause
cause_of unicode (not_run e) stderr = other e
cause_of unicode _ stderr =
    if is_no_server_stderr unicode stderr
    then sentinel no_server
    else elim (missing_target_err unicode stderr) [ some t ↦ sentinel t | none ↦ no_cause ]

abbrev cause_in : (Bytes → Bytes) → Finished → Cause
unfolding cause_of
cause_in unicode f = elim f.context_error [
  | some e ↦ other e
  | none ↦ cause_of unicode f.ended (trim_space f.stderr)
]

-- What `run` returns after the process: its output, or the error with the arguments of tmux.
unfoldable pub outcome : {R : Type 0} → (Bytes → Bytes) → List Bytes → Finished → Result R Bytes
unfolding cause_of exit_code
outcome unicode args f = elim f.ended [
  | succeeded ↦ ok f.stdout
  | _ ↦ err (
      exit (record {
        args = args;
        code = exit_code f.ended;
        stderr = trim_space f.stderr;
        cause = cause_in unicode f;
      }))
]

module _ {W : Type 0} (out : Outside W) (cfg : Config) where
  abbrev pub invocation : List Bytes → Invocation
  invocation args = record {
    binary = cfg.binary;
    args = argv cfg (escape_trailing_semicolon args);
    env = environ out.parent_env cfg;
  }

  unfoldable pub run : {R : Type 0} → List Bytes → Op W R Bytes
  unfolding outcome
  run args c =
      let (w, f) = out.exec c.world (invocation args) in
      (
        record c { world = w },
        outcome out.unicode_lower (tmux_args cfg (escape_trailing_semicolon args)) f,
      )

  unfoldable pub run_ok : {R : Type 0} → List Bytes → Op W R (Unit {0})
  unfolding run
  run_ok args = do _ ← run args; done tt

  unfoldable pub run_lines : {R : Type 0} → List Bytes → Op W R (List Bytes)
  unfolding run
  run_lines args = do out ← run args; done (split_lines out)

  -- The version that tmux prints, or the zero version after an error.
  abbrev version_of : Result Unit Bytes → Version
  version_of (ok out) = elim (parse_version out) [ some v ↦ v | none ↦ version_zero [] ]
  version_of (err e) = version_zero []

  asked : Client W → Result Unit Bytes → Client W × Version
  asked c r = (record c { version = some (version_of r) }, version_of r)

  ask : Client W → Client W × Version
  unfolding asked run
  ask c = let (c', r) = run {R = Unit {0}} (codes "-V" ∷ []) c in asked c' r

  -- `tmuxVersion`; the error that it keeps is never read.
  known : Client W → Option Version → Client W × Version
  unfolding ask
  known c (some v) = (c, v)
  known c none = ask c

  unfoldable pub tmux_version : Client W → Client W × Version
  unfolding known
  tmux_version c = known c c.version

  unfoldable pub decode_stored : {R : Type 0} → Bytes → Op W R Bytes
  unfolding tmux_version
  decode_stored v c =
      let (c', version) = tmux_version c in
      (c', ok (if escapes_dollar_on_write version then undo_dollar_escape v else v))

  -- What `ServerRunning` makes of a listing.
  running : {R : Type 0} → Result R Bytes → Op W R Bool
  unfolding says_no_server
  running (ok out) = done true
  running (err e) = if says_no_server e then done false else fail e

  unfoldable pub server_running : {R : Type 0} → Op W R Bool
  unfolding run running
  server_running = do
    r ← attempt (run (codes "list-sessions" ∷ codes "-F" ∷ codes "#{session_id}" ∷ []))
    running r

  -- An error that says that there is no server is success.
  unless_gone : {R : Type 0} → Result R (Unit {0}) → Op W R (Unit {0})
  unfolding says_no_server
  unless_gone (ok _) = done tt
  unless_gone (err e) = if says_no_server e then done tt else fail e

  unfoldable pub kill_server : {R : Type 0} → Op W R (Unit {0})
  unfolding run_ok unless_gone
  kill_server = do r ← attempt (run_ok (codes "kill-server" ∷ [])); unless_gone r

  unfoldable pub client_version : Op W VersionRefusal Version
  unfolding run
  client_version = do
    out ← run (codes "-V" ∷ [])
    elim (parse_version out) [ some v ↦ done v | none ↦ fail no_version ]

  unfoldable pub check_version : Op W VersionRefusal (Unit {0})
  unfolding client_version at_least
  check_version = do
    v ← client_version
    if not (at_least v minimum_version) then fail (refused (too_old v)) else done tt
