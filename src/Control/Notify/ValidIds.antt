-- ===== src/Control/Notify/ValidIds.antt =====
-- The identifiers in the events of `handleNotification` (control_reader.go).
use gotmucks.Base.{
  ℕ, Bool, true, false, not, [], ◌∷◌, ◌≡◌, inl, inr, refl, arith, Bytes, Option, none, some, All,
  All-append, Bool-cases, if◌then◌else◌, bytes_eq, ◌||◌, ltb,
}
use gotmucks.Strings.{cut, trim_space}
use gotmucks.Ids.{valid_id, session_sigil, window_sigil, pane_sigil}
use gotmucks.Ctlparse.{Line}
use gotmucks.Ctlparse.Args.{Output, Subscription, Layout, IdAndName, TwoIds}
use gotmucks.Ctlparse.Ids.{
  IsIdOrEmpty, HasIds, parse_output-valid_id, parse_extended_output-valid_id,
  parse_layout_change-valid_id, parse_subscription_changed-HasIds,
}
use gotmucks.Control.Taps.{send_tap, update_tap, deliver_tap, deliver_output, lookup_tap}
use gotmucks.Control.Notify.{
  Case, exit_line, output_case, extended_output_case, pause_case, continue_case, pane_mode_case,
  session_changed_case, session_renamed_case, session_window_case, window_add_case,
  window_close_case, window_renamed_case, window_pane_case, layout_case, subscription_case,
  client_session_case, exit_case, one_id, deliver, session_change, session_rename, window_rename,
  pair_change, layout_change, subscription_change, client_session, malformed, run_case,
}
use gotmucks.Control.{
  Conn, Tap, Event, emit, pane_output, pane_paused, pane_continued, pane_mode_changed,
  session_changed, session_renamed, session_window_changed, window_added, window_closed,
  window_renamed, window_pane_changed, layout_changed, subscription_changed, client_session_changed,
  output_dropped, protocol_error, bad_arguments,
}

unfoldable pub NamesIds : Event → Type 0
NamesIds (pane_output id _ _ _) = valid_id id pane_sigil ≡ true
NamesIds (pane_paused id) = valid_id id pane_sigil ≡ true
NamesIds (pane_continued id) = valid_id id pane_sigil ≡ true
NamesIds (pane_mode_changed id) = valid_id id pane_sigil ≡ true
NamesIds (session_changed id _) = valid_id id session_sigil ≡ true
NamesIds (session_renamed id _) = IsIdOrEmpty id session_sigil
NamesIds (session_window_changed s w) =
    (valid_id s session_sigil ≡ true) × (valid_id w window_sigil ≡ true)
NamesIds (window_added id) = valid_id id window_sigil ≡ true
NamesIds (window_closed id) = valid_id id window_sigil ≡ true
NamesIds (window_renamed id _) = valid_id id window_sigil ≡ true
NamesIds (window_pane_changed w p) =
    (valid_id w window_sigil ≡ true) × (valid_id p pane_sigil ≡ true)
NamesIds (layout_changed id _ _ _) = valid_id id window_sigil ≡ true
NamesIds (subscription_changed _ s w p _ _) =
    IsIdOrEmpty s session_sigil × IsIdOrEmpty w window_sigil × IsIdOrEmpty p pane_sigil
NamesIds (client_session_changed _ id _) = valid_id id session_sigil ≡ true
NamesIds (output_dropped id _) = valid_id id pane_sigil ≡ true
NamesIds _ = Unit

-- All events so far, and the session that the connection is attached to.
pub record IsSound (cc : Conn) : Type 0 where
  pub events : All NamesIds cc.out
  pub attached : IsIdOrEmpty cc.attached session_sigil

pub emit-IsSound : (cc : Conn) (ev : Event) → NamesIds ev → IsSound cc → IsSound (emit cc ev)
emit-IsSound cc ev n h = record {
  events = All-append _ cc.out (ev ∷ []) h.events (n, tt);
  attached = h.attached;
}

malformed-IsSound : (cc : Conn) (cl : Line) → IsSound cc → IsSound (malformed cc cl)
unfolding NamesIds
malformed-IsSound cc cl h = emit-IsSound cc (protocol_error cl.raw (bad_arguments cl.name)) tt h

one_id-IsSound :
    (cc : Conn) (cl : Line) (sigil : ℕ) (event : Bytes → Event)
    → ((id : Bytes) → valid_id id sigil ≡ true → NamesIds (event id))
    → IsSound cc
    → IsSound (one_id cc cl sigil event)
unfolding one_id
one_id-IsSound cc cl sigil event f h = elim (Bool-cases (valid_id (trim_space cl.args) sigil)) [
  | inl valid ↦ rw valid (emit-IsSound cc _ (f (trim_space cl.args) valid) h)
  | inr other ↦ rw other (malformed-IsSound cc cl h)
]

pub if_IsSound :
    (b : Bool) (x y : Conn)
    → (b ≡ true → IsSound x)
    → (b ≡ false → IsSound y)
    → IsSound (if b then x else y)
if_IsSound true x y f g = f refl
if_IsSound false x y f g = g refl

deliver_tap-IsSound :
    (cc : Conn) (id bytes : Bytes) (o : Option Tap)
    → valid_id id pane_sigil ≡ true
    → IsSound cc
    → IsSound (deliver_tap cc id bytes o)
unfolding deliver_tap send_tap NamesIds
deliver_tap-IsSound cc id bytes none v h = h
deliver_tap-IsSound cc id bytes (some t) v h =
    let sent : Conn = record cc { taps = update_tap id (send_tap t bytes).0 cc.taps } in
    let kept : IsSound sent = record { events = h.events; attached = h.attached } in
    let told = emit-IsSound sent (output_dropped id (send_tap t bytes).1) v kept in
    if_IsSound t.closed cc _ (λ _. h)
      (λ _. if_IsSound (ltb 0 (send_tap t bytes).1) _ sent (λ _. told) (λ _. kept))

deliver-IsSound :
    (cc : Conn) (cl : Line) (o : Option Output)
    → ((r : Output) → o ≡ some r → valid_id r.pane pane_sigil ≡ true)
    → IsSound cc
    → IsSound (deliver cc cl o)
unfolding deliver deliver_output NamesIds
deliver-IsSound cc cl none f h = malformed-IsSound cc cl h
deliver-IsSound cc cl (some o) f h =
    let v = f o refl in
    deliver_tap-IsSound _ o.pane _ (lookup_tap o.pane cc.taps) v (emit-IsSound cc _ v h)

session_change-IsSound :
    (cc : Conn) (cl : Line) (o : Option IdAndName) → IsSound cc → IsSound (session_change cc cl o)
unfolding session_change NamesIds
session_change-IsSound cc cl none h = malformed-IsSound cc cl h
session_change-IsSound cc cl (some r) h = elim (Bool-cases (valid_id r.id session_sigil)) [
  | inl valid ↦ rw valid (
      emit-IsSound (record cc { attached = r.id }) _ valid
        (record { events = h.events; attached = inr valid }))
  | inr other ↦ rw other (malformed-IsSound cc cl h)
]

session_rename-IsSound :
    (cc : Conn) (cl : Line) (o : Option IdAndName) → IsSound cc → IsSound (session_rename cc cl o)
unfolding session_rename NamesIds
session_rename-IsSound cc cl none h = emit-IsSound cc _ h.attached h
session_rename-IsSound cc cl (some r) h = elim (Bool-cases (valid_id r.id session_sigil)) [
  | inl valid ↦ rw valid (emit-IsSound cc _ (inr valid) h)
  | inr other ↦ rw other (emit-IsSound cc _ h.attached h)
]

window_rename-IsSound :
    (cc : Conn) (cl : Line) (o : Option IdAndName) → IsSound cc → IsSound (window_rename cc cl o)
unfolding window_rename NamesIds
window_rename-IsSound cc cl none h = malformed-IsSound cc cl h
window_rename-IsSound cc cl (some r) h = elim (Bool-cases (valid_id r.id window_sigil)) [
  | inl valid ↦ rw valid (emit-IsSound cc _ valid h)
  | inr other ↦ rw other (malformed-IsSound cc cl h)
]

pair_change-IsSound :
    (cc : Conn) (cl : Line) (sigil sigil' : ℕ) (event : Bytes → Bytes → Event) (o : Option TwoIds)
    → ((a b : Bytes) → valid_id a sigil ≡ true → valid_id b sigil' ≡ true → NamesIds (event a b))
    → IsSound cc
    → IsSound (pair_change cc cl sigil sigil' event o)
unfolding pair_change
pair_change-IsSound cc cl sigil sigil' event none f h = malformed-IsSound cc cl h
pair_change-IsSound cc cl sigil sigil' event (some r) f h =
    elim (Bool-cases (valid_id r.first sigil)) [
      | inl one ↦ elim (Bool-cases (valid_id r.second sigil')) [
        | inl both ↦ rw (one, both) (emit-IsSound cc _ (f r.first r.second one both) h)
        | inr bad ↦ rw (one, bad) (malformed-IsSound cc cl h)
      ]
      | inr bad ↦ rw bad (malformed-IsSound cc cl h)
    ]

layout_change-IsSound :
    (cc : Conn) (cl : Line) (o : Option Layout)
    → ((l : Layout) → o ≡ some l → valid_id l.window window_sigil ≡ true)
    → IsSound cc
    → IsSound (layout_change cc cl o)
unfolding layout_change NamesIds
layout_change-IsSound cc cl none f h = malformed-IsSound cc cl h
layout_change-IsSound cc cl (some l) f h = emit-IsSound cc _ (f l refl) h

subscription_change-IsSound :
    (cc : Conn) (cl : Line) (o : Option Subscription)
    → ((s : Subscription) → o ≡ some s → HasIds s)
    → IsSound cc
    → IsSound (subscription_change cc cl o)
unfolding subscription_change NamesIds
subscription_change-IsSound cc cl none f h = malformed-IsSound cc cl h
subscription_change-IsSound cc cl (some s) f h =
    let ids = f s refl in emit-IsSound cc _ (ids.session, ids.window, ids.pane) h

client_session-IsSound : (cc : Conn) (cl : Line) → IsSound cc → IsSound (client_session cc cl)
unfolding client_session NamesIds
client_session-IsSound cc cl h =
    let a = cut b' ' cl.args in
    let b = cut b' ' a.after in
    if_IsSound (not a.found || bytes_eq a.before [] || not (valid_id b.before session_sigil)) _ _
      (λ _. malformed-IsSound cc cl h) (λ fits. emit-IsSound cc _ (ground arith) h)

-- Every event names sessions, windows and panes by well-formed identifiers, or leaves empty a field
-- that the line had nothing for, whatever notification arrives.
pub run_case-IsSound :
    (c : Case) (cc : Conn) (cl : Line) → IsSound cc → IsSound (run_case c cc cl).0
unfolding run_case NamesIds exit_line
run_case-IsSound output_case cc cl h = deliver-IsSound cc cl _ (parse_output-valid_id cl.args) h
run_case-IsSound extended_output_case cc cl h =
    deliver-IsSound cc cl _ (parse_extended_output-valid_id cl.args) h
run_case-IsSound pause_case cc cl h = one_id-IsSound cc cl pane_sigil pane_paused (λ _ v. v) h
run_case-IsSound continue_case cc cl h = one_id-IsSound cc cl pane_sigil pane_continued (λ _ v. v) h
run_case-IsSound pane_mode_case cc cl h =
    one_id-IsSound cc cl pane_sigil pane_mode_changed (λ _ v. v) h
run_case-IsSound session_changed_case cc cl h = session_change-IsSound cc cl _ h
run_case-IsSound session_renamed_case cc cl h = session_rename-IsSound cc cl _ h
run_case-IsSound session_window_case cc cl h =
    pair_change-IsSound cc cl session_sigil window_sigil session_window_changed _
      (λ _ _ v w. (v, w)) h
run_case-IsSound window_add_case cc cl h =
    one_id-IsSound cc cl window_sigil window_added (λ _ v. v) h
run_case-IsSound window_close_case cc cl h =
    one_id-IsSound cc cl window_sigil window_closed (λ _ v. v) h
run_case-IsSound window_renamed_case cc cl h = window_rename-IsSound cc cl _ h
run_case-IsSound window_pane_case cc cl h =
    pair_change-IsSound cc cl window_sigil pane_sigil window_pane_changed _ (λ _ _ v w. (v, w)) h
run_case-IsSound layout_case cc cl h =
    layout_change-IsSound cc cl _ (parse_layout_change-valid_id cl.args) h
run_case-IsSound subscription_case cc cl h =
    subscription_change-IsSound cc cl _ (parse_subscription_changed-HasIds cl.args) h
run_case-IsSound client_session_case cc cl h = client_session-IsSound cc cl h
run_case-IsSound exit_case cc cl h = record { events = h.events; attached = h.attached }
run_case-IsSound _ cc cl h = emit-IsSound cc _ tt h
