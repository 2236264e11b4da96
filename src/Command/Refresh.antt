-- ===== src/Command/Refresh.antt =====
-- The commands of control_cmds.go that are all `refresh-client`: what they check, and the arguments
-- that they hand to `DoArgs`. The number of seconds in `pause-after` stays a number here.
pub mod Size
use gotmucks.Base.{
  ℕ, zero, suc, true, not, ◌||◌, ◌+◌, ◌*◌, ◌/◌, ◌%◌, ◌<◌, ◌≤◌, List, [], ◌∷◌, ◌++◌, ◌≡◌, ◌≢◌, refl,
  Bool-cases, inl, inr, ◌∙◌, arith, Bytes, Option, none, some, codes, ◌==◌, leb, ltb, bytes_eq,
  if◌then◌else◌, Lacks,
}
use gotmucks.Base.Int.{ℤ, pos, negsuc}
use gotmucks.Strings.{cut_text, fields, cut-append}
use gotmucks.Ids.{PaneId, IdError, check_id, pane_sigil, window_sigil, pane, window}
use gotmucks.Ctlparse.Args.{
  Subscription, parse_subscription_changed, subscription_named, subscription_field,
  subscription_fields, index_field, no_value,
}

abbrev pub subscribe_session : Bytes
subscribe_session = []

abbrev pub subscribe_all_panes : Bytes
subscribe_all_panes = codes "%*"

abbrev pub subscribe_all_windows : Bytes
subscribe_all_windows = codes "@*"

pub data SubscribeError : Type 0 where
  empty_name : SubscribeError
  -- the byte of the name that is refused, and its index
  bad_name : ℕ → ℕ → SubscribeError
  bad_target : Bytes → SubscribeError
  bad_target_id : IdError → SubscribeError

-- The loop of `checkSubscribeName` at an index.
name_from : ℕ → Bytes → Option SubscribeError
name_from i [] = none
name_from i (c ∷ s) =
    let rest = name_from (suc i) s in
    if leb c b' ' || c == 0x7f || c == b':' then some (bad_name c i) else rest

unfoldable pub check_subscribe_name : Bytes → Option SubscribeError
unfolding name_from
check_subscribe_name [] = some empty_name
check_subscribe_name (c ∷ s) = name_from 0 (c ∷ s)

abbrev of_id : Option IdError → Option SubscribeError
of_id none = none
of_id (some e) = some (bad_target_id e)

unfoldable pub check_subscribe_target : Bytes → Option SubscribeError
unfolding check_id bytes_eq
check_subscribe_target [] = none
check_subscribe_target (c ∷ s) =
    if bytes_eq (c ∷ s) subscribe_all_panes || bytes_eq (c ∷ s) subscribe_all_windows
    then none
    else if c == pane_sigil
    then of_id (check_id (c ∷ s) pane_sigil pane)
    else if c == window_sigil
    then of_id (check_id (c ∷ s) window_sigil window)
    else some (bad_target (c ∷ s))

-- The arguments for `DoArgs`, or the error that is returned instead of calling it.
pub data Refresh (E : Type 0) : Type 0 where
  sends : List Bytes → Refresh E
  fails : E → Refresh E

abbrev unless : {E : Type 0} → Option E → Refresh E → Refresh E
unless none r = r
unless (some e) r = fails e

unfoldable pub subscribe : Bytes → Bytes → Bytes → Refresh SubscribeError
unfolding check_subscribe_name check_subscribe_target
subscribe name target format = unless (check_subscribe_name name) (
    unless (check_subscribe_target target) (
      sends
        (codes "refresh-client" ∷ codes "-B" ∷ (name ++ b':' ∷ (target ++ b':' ∷ format)) ∷ [])))

unfoldable pub unsubscribe : Bytes → Refresh SubscribeError
unfolding check_subscribe_name
unsubscribe name =
    unless (check_subscribe_name name) (sends (codes "refresh-client" ∷ codes "-B" ∷ name ∷ []))

unfoldable pub resume : PaneId → Refresh IdError
unfolding check_id
resume id =
    unless (check_id id pane_sigil pane)
      (sends (codes "refresh-client" ∷ codes "-A" ∷ (id ++ codes ":continue") ∷ []))

unfoldable pub pause : PaneId → Refresh IdError
unfolding check_id
pause id =
    unless (check_id id pane_sigil pane)
      (sends (codes "refresh-client" ∷ codes "-A" ∷ (id ++ codes ":pause") ∷ []))

abbrev pub second : ℕ
second = 1000000000

abbrev pub max_int32 : ℕ
max_int32 = 2147483647

-- The seconds of `PauseAfter` for a number of nanoseconds above 0, rounded up and capped.
unfoldable pub pause_seconds : ℕ → ℕ
pause_seconds d =
    let whole = d / second in
    let secs = if not (d % second == 0) || whole == 0 then whole + 1 else whole in
    if ltb max_int32 secs then max_int32 else secs

-- `PauseAfter`: the seconds, or none where the flag is cleared.
unfoldable pub pause_after : ℤ → Option ℕ
unfolding pause_seconds
pause_after (negsuc n) = none
pause_after (pos zero) = none
pause_after (pos (suc n)) = some (pause_seconds (suc n))

-- For a duration above zero, PauseAfter asks for at least one second and at most 2147483647, for
-- less than one second more than the duration, and, below that cap, for no less than the duration.
pub pause_after-bounds :
    (d : ℕ)
    → 0 < d
    → (s : ℕ) × (pause_after (pos d) ≡ some s)
      × (1 ≤ s)
      × (s ≤ max_int32)
      × (s * second < d + second)
      × (s < max_int32 → d ≤ s * second)
unfolding pause_after pause_seconds
pause_after-bounds zero h = absurd (omega arith)
pause_after-bounds (suc n) h =
    (pause_seconds (suc n), refl, ground arith, ground arith, ground arith, ground arith)

name_from-Lacks : (i : ℕ) (s : Bytes) → name_from i s ≡ none → Lacks b' ' s × Lacks b':' s
unfolding name_from
name_from-Lacks i [] h = (tt, tt)
name_from-Lacks i (c ∷ s) h = ground (arith, name_from-Lacks (suc i) s)

subscription_field-name : (s : Subscription) (f : Bytes) → (subscription_field s f).name ≡ s.name
unfolding subscription_field index_field
subscription_field-name s f = ground arith

subscription_fields-name :
    (fs : List Bytes) (s : Subscription) → (subscription_fields s fs).name ≡ s.name
unfolding subscription_fields
subscription_fields-name [] s = refl
subscription_fields-name (f ∷ fs) s =
    subscription_fields-name fs (subscription_field s f) ∙ subscription_field-name s f

subscription_named-name :
    (name rest : Bytes)
    → name ≢ []
    → (s : Subscription) × (subscription_named name true rest ≡ some s) × (s.name ≡ name)
unfolding subscription_named
subscription_named-name [] rest n = absurd (n refl)
subscription_named-name (c ∷ name) rest n =
    let m = cut_text (codes " : ") rest in
    elim (Bool-cases m.found) [
      | inl found ↦ rw found (
        subscription_fields (record (no_value (c ∷ name)) { value = m.after }) (fields m.before),
        refl,
        subscription_fields-name (fields m.before)
            (record (no_value (c ∷ name)) { value = m.after }),
      )
      | inr plain ↦ rw plain (record (no_value (c ∷ name)) { value = rest }, refl, refl)
    ]

-- A subscription name that passes the check of Subscribe is the name that is read from a line of
-- arguments in which a space and any text follow it, and such a line is always read.
pub check_subscribe_name-parse :
    (name rest : Bytes)
    → check_subscribe_name name ≡ none
    → (s : Subscription) × (parse_subscription_changed (name ++ b' ' ∷ rest) ≡ some s)
      × (s.name ≡ name)
unfolding check_subscribe_name parse_subscription_changed
check_subscribe_name-parse [] rest h = absurd (ground arith)
check_subscribe_name-parse (c ∷ s) rest h =
    rw (cut-append b' ' (c ∷ s) rest (name_from-Lacks 0 (c ∷ s) h).0)
      (subscription_named-name (c ∷ s) rest (ground arith))
