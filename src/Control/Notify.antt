-- ===== src/Control/Notify.antt =====
-- `handleNotification` of control_reader.go. The switch on the name is in two parts: which case it
-- takes, and what the case does.
pub mod Keeps
pub mod ValidIds
use gotmucks.Base.{
  ℕ, Bool, true, false, ◌||◌, not, ◌*◌, ◌-◌, ◌^◌, ◌%◌, List, [], ◌∷◌, Bytes, Option, none, some,
  if◌then◌else◌, codes, bytes_eq, ltb, suc,
}
use gotmucks.Base.Int.{ℤ, pos, negsuc, int64}
use gotmucks.Strings.{cut, trim_space, trim_suffix}
use gotmucks.Escape.{unescape}
use gotmucks.Vis.{vis_decode}
use gotmucks.Ids.{valid_id, session_sigil, window_sigil, pane_sigil}
use gotmucks.Ctlparse.{Line}
use gotmucks.Ctlparse.Args.{
  Output, parse_output, parse_extended_output, Subscription, parse_subscription_changed, Layout,
  parse_layout_change, IdAndName, parse_id_and_name, TwoIds, parse_two_ids,
}
use gotmucks.Control.Taps.{deliver_output}
use gotmucks.Control.{
  Conn, Event, emit, pane_paused, pane_continued, pane_mode_changed, sessions_changed,
  session_changed, session_renamed, session_window_changed, window_added, window_closed,
  window_renamed, window_pane_changed, layout_changed, subscription_changed, client_session_changed,
  client_detached, message, config_error, paste_buffer_changed, paste_buffer_deleted,
  unknown_notification, protocol_error, bad_arguments,
}

-- `time.Duration(ms) * time.Millisecond`, in nanoseconds.
unfoldable pub milliseconds : ℤ → ℤ
unfolding int64
milliseconds (pos n) = int64 (pos (n * 1000000))
milliseconds (negsuc n) = int64 (negsuc (suc n * 1000000 - 1))

-- The string terminator that tmux appends under -CC: an escape byte and a backslash.
abbrev pub dcs_exit : Bytes
dcs_exit = 0x1b ∷ b'\\' ∷ []

pub data Case : Type 0 where
  output_case extended_output_case pause_case continue_case pane_mode_case : Case
  sessions_case session_changed_case session_renamed_case session_window_case : Case
  window_add_case window_close_case window_renamed_case window_pane_case layout_case : Case
  subscription_case client_session_case client_detached_case message_case : Case
  config_error_case buffer_changed_case buffer_deleted_case exit_case unknown_case : Case

-- The cases of the switch, in the order of the source.
abbrev pub cases : List (Bytes × Case)
cases =
    (codes "output", output_case)
    ∷ (codes "extended-output", extended_output_case)
    ∷ (codes "pause", pause_case)
    ∷ (codes "continue", continue_case)
    ∷ (codes "pane-mode-changed", pane_mode_case)
    ∷ (codes "sessions-changed", sessions_case)
    ∷ (codes "session-changed", session_changed_case)
    ∷ (codes "session-renamed", session_renamed_case)
    ∷ (codes "session-window-changed", session_window_case)
    ∷ (codes "window-add", window_add_case)
    ∷ (codes "unlinked-window-add", window_add_case)
    ∷ (codes "window-close", window_close_case)
    ∷ (codes "unlinked-window-close", window_close_case)
    ∷ (codes "window-renamed", window_renamed_case)
    ∷ (codes "unlinked-window-renamed", window_renamed_case)
    ∷ (codes "window-pane-changed", window_pane_case)
    ∷ (codes "layout-change", layout_case)
    ∷ (codes "subscription-changed", subscription_case)
    ∷ (codes "client-session-changed", client_session_case)
    ∷ (codes "client-detached", client_detached_case)
    ∷ (codes "message", message_case)
    ∷ (codes "config-error", config_error_case)
    ∷ (codes "paste-buffer-changed", buffer_changed_case)
    ∷ (codes "paste-buffer-deleted", buffer_deleted_case)
    ∷ (codes "exit", exit_case)
    ∷ []

unfoldable pub find_case : Bytes → List (Bytes × Case) → Case
unfolding bytes_eq
find_case name [] = unknown_case
find_case name ((n, c) ∷ cs) = if bytes_eq name n then c else find_case name cs

-- `cc.malformed(cl)`.
abbrev pub malformed : Conn → Line → Conn
malformed cc cl = emit cc (protocol_error cl.raw (bad_arguments cl.name))

-- The cases whose whole argument is one identifier (`paneArg`, `windowArg`).
unfoldable pub one_id : Conn → Line → ℕ → (Bytes → Event) → Conn
one_id cc cl sigil event =
    let id = trim_space cl.args in if valid_id id sigil then emit cc (event id) else malformed cc cl

unfoldable pub deliver : Conn → Line → Option Output → Conn
deliver cc cl none = malformed cc cl
deliver cc cl (some o) =
    deliver_output cc o.pane (unescape o.payload) o.extended (milliseconds o.age_ms)

unfoldable pub session_change : Conn → Line → Option IdAndName → Conn
session_change cc cl none = malformed cc cl
session_change cc cl (some r) =
    if not (valid_id r.id session_sigil)
    then malformed cc cl
    else emit (record cc { attached = r.id }) (session_changed r.id (vis_decode r.name))

-- A first field that is no identifier is the older form of the line.
unfoldable pub session_rename : Conn → Line → Option IdAndName → Conn
session_rename cc cl none = emit cc (session_renamed cc.attached (vis_decode (trim_space cl.args)))
session_rename cc cl (some r) =
    if not (valid_id r.id session_sigil)
    then emit cc (session_renamed cc.attached (vis_decode (trim_space cl.args)))
    else emit cc (session_renamed r.id (vis_decode r.name))

unfoldable pub window_rename : Conn → Line → Option IdAndName → Conn
window_rename cc cl none = malformed cc cl
window_rename cc cl (some r) =
    if not (valid_id r.id window_sigil)
    then malformed cc cl
    else emit cc (window_renamed r.id (vis_decode r.name))

unfoldable pub pair_change : Conn → Line → ℕ → ℕ → (Bytes → Bytes → Event) → Option TwoIds → Conn
pair_change cc cl sigil sigil' event none = malformed cc cl
pair_change cc cl sigil sigil' event (some r) =
    if not (valid_id r.first sigil) || not (valid_id r.second sigil')
    then malformed cc cl
    else emit cc (event r.first r.second)

unfoldable pub layout_change : Conn → Line → Option Layout → Conn
layout_change cc cl none = malformed cc cl
layout_change cc cl (some l) = emit cc (layout_changed l.window l.layout l.visible l.flags)

unfoldable pub subscription_change : Conn → Line → Option Subscription → Conn
subscription_change cc cl none = malformed cc cl
subscription_change cc cl (some s) =
    emit cc (subscription_changed s.name s.session s.window s.pane s.window_index s.value)

-- `strings.SplitN(args, " ", 3)`: the client, the session and, where there is one, the name.
unfoldable pub client_session : Conn → Line → Conn
client_session cc cl =
    let a = cut b' ' cl.args in
    let b = cut b' ' a.after in
    if not a.found || bytes_eq a.before [] || not (valid_id b.before session_sigil)
    then malformed cc cl
    else emit cc
        (client_session_changed a.before b.before (if b.found then vis_decode b.after else []))

unfoldable pub exit_line : Conn → Line → Conn
exit_line cc cl =
    let reason = trim_suffix dcs_exit (trim_space cl.args) in
    record cc { saw_exit = true; exit_msg = trim_space reason }

-- The body of each case; all but `exit` let the reader carry on.
unfoldable pub run_case : Case → Conn → Line → Conn × Bool
unfolding one_id deliver session_change session_rename window_rename pair_change layout_change
    subscription_change client_session exit_line
run_case output_case cc cl = (deliver cc cl (parse_output cl.args), true)
run_case extended_output_case cc cl = (deliver cc cl (parse_extended_output cl.args), true)
run_case pause_case cc cl = (one_id cc cl pane_sigil pane_paused, true)
run_case continue_case cc cl = (one_id cc cl pane_sigil pane_continued, true)
run_case pane_mode_case cc cl = (one_id cc cl pane_sigil pane_mode_changed, true)
run_case sessions_case cc cl = (emit cc sessions_changed, true)
run_case session_changed_case cc cl = (session_change cc cl (parse_id_and_name cl.args), true)
run_case session_renamed_case cc cl = (session_rename cc cl (parse_id_and_name cl.args), true)
run_case session_window_case cc cl = (
  pair_change cc cl session_sigil window_sigil session_window_changed (parse_two_ids cl.args),
  true,
)
run_case window_add_case cc cl = (one_id cc cl window_sigil window_added, true)
run_case window_close_case cc cl = (one_id cc cl window_sigil window_closed, true)
run_case window_renamed_case cc cl = (window_rename cc cl (parse_id_and_name cl.args), true)
run_case window_pane_case cc cl =
    (pair_change cc cl window_sigil pane_sigil window_pane_changed (parse_two_ids cl.args), true)
run_case layout_case cc cl = (layout_change cc cl (parse_layout_change cl.args), true)
run_case subscription_case cc cl =
    (subscription_change cc cl (parse_subscription_changed cl.args), true)
run_case client_session_case cc cl = (client_session cc cl, true)
run_case client_detached_case cc cl = (emit cc (client_detached (trim_space cl.args)), true)
run_case message_case cc cl = (emit cc (message cl.args), true)
run_case config_error_case cc cl = (emit cc (config_error cl.args), true)
run_case buffer_changed_case cc cl = (emit cc (paste_buffer_changed (trim_space cl.args)), true)
run_case buffer_deleted_case cc cl = (emit cc (paste_buffer_deleted (trim_space cl.args)), true)
run_case exit_case cc cl = (exit_line cc cl, false)
run_case unknown_case cc cl = (emit cc (unknown_notification cl.name cl.args), true)

unfoldable pub handle_notification : Conn → Line → Conn × Bool
unfolding run_case find_case
handle_notification cc cl = run_case (find_case cl.name cases) cc cl
