-- ===== src/Errors.antt =====
-- errors.go: what a failed run of tmux was about, read from what tmux wrote to its standard error.
-- An error that comes from the operating system or a context is kept as its message.
pub mod Sentinels
use gotmucks.Base.{
  ℕ, Bool, true, false, not, ◌&&◌, ◌||◌, List, [], ◌∷◌, ◌++◌, Bytes, Option, none, some, codes, leb,
  ltb, ◌+◌, map, if◌then◌else◌,
}
use gotmucks.Base.Int.{ℤ}
use gotmucks.Strings.{cut_text, trim_space}

pub data Sentinel : Type 0 where
  no_server no_session no_window no_pane : Sentinel

-- What `ExitError.Err` holds.
pub data Cause : Type 0 where
  no_cause : Cause
  sentinel : Sentinel → Cause
  -- the error of the context, or of starting the process
  other : Bytes → Cause

pub record ExitError : Type 0 where
  pub args : List Bytes
  pub code : ℤ
  pub stderr : Bytes
  pub cause : Cause

abbrev pub no_server_patterns : List Bytes
no_server_patterns =
    codes "no server running on"
    ∷ codes "error connecting to"
    ∷ codes "connect failed: no such file or directory"
    ∷ codes "server not found"
    ∷ codes "server exited unexpectedly"
    ∷ codes "lost server"
    ∷ []

abbrev pub missing_target_patterns : List (Bytes × Sentinel)
missing_target_patterns =
    (codes "can't find window", no_window)
    ∷ (codes "can't find pane", no_pane)
    ∷ (codes "can't find session", no_session)
    ∷ (codes "session not found", no_session)
    ∷ (codes "no current session", no_session)
    ∷ (codes "no such session", no_session)
    ∷ (codes "no such window", no_window)
    ∷ (codes "no such pane", no_pane)
    ∷ []

-- The loop of `isNoServerStderr`, and that of `isUnknownOptionStderr`.
unfoldable pub holds_any : List Bytes → Bytes → Bool
holds_any [] s = false
holds_any (p ∷ ps) s = (cut_text p s).found || holds_any ps s

-- The loop of `missingTargetErr`.
unfoldable pub first_target : List (Bytes × Sentinel) → Bytes → Option Sentinel
first_target [] s = none
first_target ((p, e) ∷ ps) s =
    let rest = first_target ps s in if (cut_text p s).found then some e else rest

abbrev is_ascii : Bytes → Bool
is_ascii [] = true
is_ascii (c ∷ s) = ltb c 0x80 && is_ascii s

abbrev lower_byte : ℕ → ℕ
lower_byte c = if leb b'A' c && leb c b'Z' then c + 32 else c

-- `strings.ToLower`; the case of a text that is not ASCII is that of the Unicode tables.
unfoldable pub to_lower : (Bytes → Bytes) → Bytes → Bytes
to_lower unicode s = if is_ascii s then map lower_byte s else unicode s

-- The early return for an empty text, which is lower-cased already.
no_server_lowered : Bytes → Bool
unfolding holds_any
no_server_lowered [] = false
no_server_lowered (c ∷ s) = holds_any no_server_patterns (c ∷ s)

unfoldable pub is_no_server_stderr : (Bytes → Bytes) → Bytes → Bool
unfolding no_server_lowered to_lower
is_no_server_stderr unicode stderr = no_server_lowered (to_lower unicode (trim_space stderr))

missing_lowered : Bytes → Option Sentinel
unfolding first_target
missing_lowered [] = none
missing_lowered (c ∷ s) = first_target missing_target_patterns (c ∷ s)

unfoldable pub missing_target_err : (Bytes → Bytes) → Bytes → Option Sentinel
unfolding missing_lowered to_lower
missing_target_err unicode stderr = missing_lowered (to_lower unicode (trim_space stderr))

-- `errors.Is(err, ErrNoServer)` of an `*ExitError`, which unwraps to its cause.
unfoldable pub is_no_server : Cause → Bool
is_no_server (sentinel no_server) = true
is_no_server _ = false

unfoldable pub is_missing_target : Cause → Bool
is_missing_target (sentinel no_session) = true
is_missing_target (sentinel no_window) = true
is_missing_target (sentinel no_pane) = true
is_missing_target _ = false

abbrev is_empty : Bytes → Bool
is_empty [] = true
is_empty (c ∷ s) = false

unfoldable pub restates_stderr : ExitError → Bool
unfolding is_no_server is_missing_target
restates_stderr e = not (is_empty e.stderr) && (is_no_server e.cause || is_missing_target e.cause)
