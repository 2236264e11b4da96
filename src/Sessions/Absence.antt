-- ===== src/Sessions/Absence.antt =====
-- `HasSession` and `KillSession` of session.go: what their answers rest on.
use gotmucks.Base.{
  Bool, true, false, ◌||◌, ◌≡◌, ◌⊎◌, refl, arith, List, [], ◌∷◌, Bytes, Option, none, some, codes,
  if◌then◌else◌, Bool-cases, Option-cases, inl, inr,
}
use gotmucks.Base.Int.{ℤ}
use gotmucks.Strings.{trim_space}
use gotmucks.Ids.{SessionId, IdError, check_id, session_sigil, session}
use gotmucks.Config.{Config, tmux_args}
use gotmucks.Errors.{
  Cause, no_cause, sentinel, other, no_server, is_no_server, is_missing_target, is_no_server_stderr,
  missing_target_err,
}
use gotmucks.Errors.Sentinels.{SaysAbsent, no_server-SaysAbsent, missing_target-SaysAbsent}
use gotmucks.Client.{escape_trailing_semicolon}
use gotmucks.Client.Run.{
  Outside, Client, Op, guard, invalid, ◌>>◌, exit, and_then, done, run_ok, Finished, Ended,
  succeeded, exited, not_run, Result, ok, err, cause_of, outcome, invocation, run, says_no_server,
  says_missing,
}
use gotmucks.Format.Query.{Refusal}
use gotmucks.Sessions.{has_session, has, kill_session, killed}

-- The failure is taken for an absence.
abbrev is_absence : Cause → Bool
unfolding is_no_server is_missing_target
is_absence c = is_no_server c || is_missing_target c

by_message :
    (unicode : Bytes → Bytes) (stderr : Bytes)
    → is_absence (
        if is_no_server_stderr unicode stderr
        then sentinel no_server
        else elim (missing_target_err unicode stderr) [ some t ↦ sentinel t | none ↦ no_cause ])
      ≡ true
    → SaysAbsent unicode stderr
unfolding is_absence
by_message unicode stderr h = elim (Bool-cases (is_no_server_stderr unicode stderr)) [
  | inl e ↦ no_server-SaysAbsent unicode stderr e
  | inr e ↦ elim (Option-cases (missing_target_err unicode stderr)) [
    | inr (t, k) ↦ missing_target-SaysAbsent unicode stderr t k
    | inl k ↦ absurd (ground (arith, e, k, h))
  ]
]

cause_of-SaysAbsent :
    (unicode : Bytes → Bytes) (e : Ended) (stderr : Bytes)
    → is_absence (cause_of unicode e stderr) ≡ true
    → SaysAbsent unicode stderr
unfolding is_absence cause_of
cause_of-SaysAbsent unicode (not_run m) stderr h = absurd (ground (arith, h))
cause_of-SaysAbsent unicode succeeded stderr h = by_message unicode stderr h
cause_of-SaysAbsent unicode (exited n) stderr h = by_message unicode stderr h

caused :
    (unicode : Bytes → Bytes) (x : Option Bytes) (d : Ended) (stderr : Bytes)
    → is_absence (elim x [ some e ↦ other e | none ↦ cause_of unicode d stderr ]) ≡ true
    → SaysAbsent unicode stderr
unfolding is_absence
caused unicode (some e) d stderr h = absurd (ground (arith, h))
caused unicode none d stderr h = cause_of-SaysAbsent unicode d stderr h

-- The result is an error that is taken for an absence.
abbrev absence : {A : Type 0} → Result Refusal A → Bool
unfolding says_no_server says_missing
absence (ok _) = false
absence (err e) = says_no_server e || says_missing e

-- The result of a run that ended so.
abbrev ended_in : (Bytes → Bytes) → List Bytes → Finished → ℤ → Ended → Result Refusal Bytes
ended_in unicode args f code d = elim d [
  | succeeded ↦ ok f.stdout
  | _ ↦ err (
      exit (record {
        args = args;
        code = code;
        stderr = trim_space f.stderr;
        cause = elim f.context_error [
          | some e ↦ other e
          | none ↦ cause_of unicode f.ended (trim_space f.stderr)
        ];
      }))
]

ended_absence :
    (unicode : Bytes → Bytes) (args : List Bytes) (f : Finished) (code : ℤ) (d : Ended)
    → absence (ended_in unicode args f code d) ≡ true
    → SaysAbsent unicode (trim_space f.stderr)
unfolding is_absence absence says_no_server says_missing
ended_absence unicode args f code succeeded h = absurd (ground (arith, h))
ended_absence unicode args f code (exited n) h = caused unicode f.context_error f.ended _ h
ended_absence unicode args f code (not_run e) h = caused unicode f.context_error f.ended _ h

outcome-SaysAbsent :
    (unicode : Bytes → Bytes) (args : List Bytes) (f : Finished)
    → absence (outcome unicode args f) ≡ true
    → SaysAbsent unicode (trim_space f.stderr)
unfolding outcome
outcome-SaysAbsent unicode args f h = ended_absence unicode args f _ f.ended h

abbrev is_ok : {A : Type 0} → Result Refusal A → Bool
is_ok (ok _) = true
is_ok (err e) = false

ended_ok :
    (unicode : Bytes → Bytes) (args : List Bytes) (f : Finished) (code : ℤ) (d : Ended)
    → is_ok (ended_in unicode args f code d) ≡ true
    → d ≡ succeeded
ended_ok unicode args f code succeeded h = refl
ended_ok unicode args f code (exited n) h = absurd (ground (arith, h))
ended_ok unicode args f code (not_run e) h = absurd (ground (arith, h))

outcome_ok :
    (unicode : Bytes → Bytes) (args : List Bytes) (f : Finished)
    → is_ok (outcome unicode args f) ≡ true
    → f.ended ≡ succeeded
unfolding outcome
outcome_ok unicode args f h = ended_ok unicode args f _ f.ended h

abbrev pub has_args : SessionId → List Bytes
has_args id = codes "has-session" ∷ codes "-t" ∷ id ∷ []

abbrev pub kill_args : SessionId → List Bytes
kill_args id = codes "kill-session" ∷ codes "-t" ∷ id ∷ []

-- What an error names as the command.
abbrev command : Config → List Bytes → List Bytes
command cfg args = tmux_args cfg (escape_trailing_semicolon args)

module _ {W : Type 0} (out : Outside W) (cfg : Config) where
  -- How a command that this client runs ends.
  abbrev pub ran : Client W → List Bytes → Finished
  ran c args = (out.exec c.world (invocation out cfg args)).1

  -- A result that rests on a check has passed it.
  after_guard :
      {A : Type 0} (o : Option IdError) (k : Op W Refusal A) (c : Client W) (a : A)
      → ((guard {R = Refusal} invalid o >> k) c).1 ≡ ok a
      → (k c).1 ≡ ok a
  after_guard none k c a h = h
  after_guard (some e) k c a h = absurd (ground (arith, h))

  has_answer :
      (r : Result Refusal Bytes) (c : Client W) (a : Bool)
      → (has out cfg r c).1 ≡ ok a
      → ((a ≡ true) × (is_ok r ≡ true)) ⊎ ((a ≡ false) × (absence r ≡ true))
  unfolding has absence
  has_answer (ok s) c a h = inl (ground (arith, h), refl)
  has_answer (err e) c a h = inr (ground (arith, h), ground (arith, h))

  killed_answer :
      (r : Result Refusal Bytes) (c : Client W)
      → (let q = and_then (c, r) (λ _. done tt) in (killed out cfg q.1 q.0).1) ≡ ok tt
      → (is_ok r ≡ true) ⊎ (absence r ≡ true)
  unfolding killed absence
  killed_answer (ok s) c h = inl refl
  killed_answer (err e) c h = inr (ground (arith, h))

  -- HasSession answers that there is a session only after a run of its command that succeeded, and
  -- that there is none only where the message of tmux, trimmed and lower-cased, holds one of the
  -- patterns of a server that is not there or of an object that is missing.
  pub has_session-answers :
      (id : SessionId) (c : Client W) (a : Bool)
      → (has_session out cfg id c).1 ≡ ok a
      → ((a ≡ true) × ((ran c (has_args id)).ended ≡ succeeded))
        ⊎ ((a ≡ false) × SaysAbsent out.unicode_lower (trim_space (ran c (has_args id)).stderr))
  unfolding has_session run
  has_session-answers id c a h =
      elim (has_answer (outcome out.unicode_lower (command cfg (has_args id)) (ran c (has_args id)))
        _ a (after_guard (check_id id session_sigil session) _ c a h)) [
          | inl (t, k) ↦ inl (t, outcome_ok _ _ _ k)
          | inr (t, k) ↦ inr (t, outcome-SaysAbsent _ _ _ k)
        ]

  -- KillSession reports success only after a run of its command that succeeded, or where the
  -- message of tmux, trimmed and lower-cased, holds one of the patterns of a server that is not
  -- there or of an object that is missing.
  pub kill_session-gone :
      (id : SessionId) (c : Client W)
      → (kill_session out cfg id c).1 ≡ ok tt
      → ((ran c (kill_args id)).ended ≡ succeeded)
        ⊎ SaysAbsent out.unicode_lower (trim_space (ran c (kill_args id)).stderr)
  unfolding kill_session run_ok run
  kill_session-gone id c h =
      elim (killed_answer
        (outcome out.unicode_lower (command cfg (kill_args id)) (ran c (kill_args id))) _
        (after_guard (check_id id session_sigil session) _ c tt h)) [
          | inl k ↦ inl (outcome_ok _ _ _ k)
          | inr k ↦ inr (outcome-SaysAbsent _ _ _ k)
        ]
