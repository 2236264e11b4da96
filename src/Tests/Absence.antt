-- ===== src/Tests/Absence.antt =====
-- The answers of `HasSession` and `KillSession`, at runs of tmux that fail.
use gotmucks.Base.{true, false, ◌≡◌, ◌⊎◌, refl, [], Bytes, codes}
use gotmucks.Ids.{check_id, valid_id, all_digits}
use gotmucks.Strings.{is_digit, has_prefix, cut_text, trim_space}
use gotmucks.Config.{default_config}
use gotmucks.Errors.{is_no_server, is_missing_target, is_no_server_stderr, missing_target_err}
use gotmucks.Errors.Sentinels.{SaysAbsent}
use gotmucks.Client.Run.{
  ok, succeeded, outcome, cause_of, run, run_ok, says_no_server, says_missing,
}
use gotmucks.Sessions.{has_session, kill_session}
use gotmucks.Sessions.Absence.{ran, has_args, kill_args, has_session-answers, kill_session-gone}
use gotmucks.Tests.Scripted.{failing, client}

abbrev no_session_message : Bytes
no_session_message = codes "can't find session: $1"

abbrev no_server_message : Bytes
no_server_message = codes "no server running on /tmp/tmux-0/default"

not_there :
    (has_session (failing no_session_message) default_config (codes "$1") (client [])).1 ≡ ok false
unfolding has_session check_id valid_id all_digits is_digit has_prefix run outcome cause_of
    is_no_server_stderr missing_target_err says_no_server says_missing is_no_server
    is_missing_target trim_space cut_text
not_there = refl

has_session-answers_example :
    ((false ≡ true)
      × ((ran (failing no_session_message) default_config (client []) (has_args (codes "$1"))).ended
          ≡ succeeded))
    ⊎ ((false ≡ false)
        × SaysAbsent
            (λ s. s)
            (trim_space
              (ran
                (failing no_session_message)
                default_config
                (client [])
                (has_args (codes "$1"))).stderr))
has_session-answers_example =
    has_session-answers (failing no_session_message) default_config (codes "$1") (client []) false
      not_there

gone_already :
    (kill_session (failing no_server_message) default_config (codes "$1") (client [])).1 ≡ ok tt
unfolding kill_session check_id valid_id all_digits is_digit has_prefix run_ok run outcome cause_of
    is_no_server_stderr missing_target_err says_no_server says_missing is_no_server
    is_missing_target trim_space cut_text
gone_already = refl

kill_session-gone_example :
    ((ran (failing no_server_message) default_config (client []) (kill_args (codes "$1"))).ended
      ≡ succeeded)
    ⊎ SaysAbsent
        (λ s. s)
        (trim_space
          (ran
            (failing no_server_message)
            default_config
            (client [])
            (kill_args (codes "$1"))).stderr)
kill_session-gone_example =
    kill_session-gone (failing no_server_message) default_config (codes "$1") (client [])
      gone_already
