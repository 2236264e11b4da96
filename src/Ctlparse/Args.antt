-- ===== src/Ctlparse/Args.antt =====
-- The decoders of the arguments of notifications.
use gotmucks.Base.{
  ℕ, Bool, true, false, ◌||◌, not, List, [], ◌∷◌, Bytes, codes, ◌==◌, if◌then◌else◌, Option, none,
  some, ◌>>=◌,
}
use gotmucks.Base.Int.{ℤ, pos, negsuc, ltb_ℤ}
use gotmucks.Strings.{cut, cut_text, fields, parse_int, is_digit}

-- The loop of `hasSigilAndDigits`.
unfoldable pub digits_only : Bytes → Bool
digits_only [] = true
digits_only (c ∷ s) = if not (is_digit c) then false else digits_only s

unfoldable pub has_sigil_and_digits : Bytes → ℕ → Bool
unfolding digits_only is_digit
has_sigil_and_digits [] sigil = false
has_sigil_and_digits (c ∷ []) sigil = false
has_sigil_and_digits (c ∷ d ∷ s) sigil = if not (c == sigil) then false else digits_only (d ∷ s)

abbrev pub is_session_id : Bytes → Bool
is_session_id s = has_sigil_and_digits s b'$'

abbrev pub is_window_id : Bytes → Bool
is_window_id s = has_sigil_and_digits s b'@'

abbrev pub is_pane_id : Bytes → Bool
is_pane_id s = has_sigil_and_digits s b'%'

pub record Output : Type 0 where
  pub pane : Bytes
  pub payload : Bytes
  pub extended : Bool
  pub age_ms : ℤ

unfoldable pub parse_output : Bytes → Option Output
parse_output args =
    let p = cut b' ' args in
    if not (is_pane_id p.before)
    then none
    else some (record { pane = p.before; payload = p.after; extended = false; age_ms = pos 0 })

-- The form without the colon: "<pane> <age> <data>".
unfoldable pub extended_plain : Bytes → Bytes → Option Output
extended_plain pane rest =
    let p = cut b' ' rest in
    if not p.found then none else (do
      n ← parse_int p.before
      some (record { pane = pane; payload = p.after; extended = true; age_ms = n }))

unfoldable pub extended_meta : Bytes → List Bytes → Bytes → Option Output
extended_meta pane [] payload = none
extended_meta pane (f ∷ _) payload = do
  n ← parse_int f
  some (record { pane = pane; payload = payload; extended = true; age_ms = n })

unfoldable pub parse_extended_output : Bytes → Option Output
unfolding extended_plain extended_meta
parse_extended_output args =
    let p = cut b' ' args in
    let m = cut_text (codes " : ") p.after in
    if not p.found || not (is_pane_id p.before)
    then none
    else if not m.found
    then extended_plain p.before p.after
    else extended_meta p.before (fields m.before) m.after

pub record Subscription : Type 0 where
  pub name : Bytes
  pub session : Bytes
  pub window : Bytes
  pub pane : Bytes
  pub window_index : ℤ
  pub value : Bytes

-- `Subscription{Name: name, WindowIndex: -1}`.
abbrev pub no_value : Bytes → Subscription
no_value name = record {
  name = name;
  session = [];
  window = [];
  pane = [];
  window_index = negsuc 0;
  value = [];
}

-- A field that is no identifier: the window index, if it is a number and none was read before.
unfoldable pub index_field : Subscription → Option ℤ → Subscription
index_field sub none = sub
index_field sub (some n) =
    if ltb_ℤ sub.window_index (pos 0) then record sub { window_index = n } else sub

unfoldable pub subscription_field : Subscription → Bytes → Subscription
unfolding index_field
subscription_field sub f =
    if is_session_id f
    then record sub { session = f }
    else if is_window_id f
    then record sub { window = f }
    else if is_pane_id f
    then record sub { pane = f }
    else index_field sub (parse_int f)

unfoldable pub subscription_fields : Subscription → List Bytes → Subscription
subscription_fields sub [] = sub
subscription_fields sub (f ∷ fs) = subscription_fields (subscription_field sub f) fs

-- From the name on.
unfoldable pub subscription_named : Bytes → Bool → Bytes → Option Subscription
unfolding subscription_fields subscription_field
subscription_named [] found rest = none
subscription_named (c ∷ s) false rest = some (no_value (c ∷ s))
subscription_named (c ∷ s) true rest =
    let m = cut_text (codes " : ") rest in
    let sub = no_value (c ∷ s) in
    if not m.found
    then some (record sub { value = rest })
    else some (subscription_fields (record sub { value = m.after }) (fields m.before))

unfoldable pub parse_subscription_changed : Bytes → Option Subscription
unfolding subscription_named
parse_subscription_changed args =
    let p = cut b' ' args in subscription_named p.before p.found p.after

pub record Layout : Type 0 where
  pub window : Bytes
  pub layout : Bytes
  pub visible : Bytes
  pub flags : Bytes

-- `fields[i]`, or the empty text where there are not so many.
abbrev first_or_empty : List Bytes → Bytes
first_or_empty [] = []
first_or_empty (f ∷ fs) = f

abbrev rest_fields : List Bytes → List Bytes
rest_fields [] = []
rest_fields (f ∷ fs) = fs

unfoldable pub layout_fields : List Bytes → Option Layout
layout_fields [] = none
layout_fields (w ∷ []) = none
layout_fields (w ∷ l ∷ more) =
    if not (is_window_id w)
    then none
    else some (record {
      window = w;
      layout = l;
      visible = first_or_empty more;
      flags = first_or_empty (rest_fields more);
    })

unfoldable pub parse_layout_change : Bytes → Option Layout
unfolding layout_fields
parse_layout_change args = layout_fields (fields args)

pub record IdAndName : Type 0 where
  pub id : Bytes
  pub name : Bytes

id_and_name : Bytes → Bytes → Option IdAndName
id_and_name [] name = none
id_and_name (c ∷ s) name = some (record { id = c ∷ s; name = name })

unfoldable pub parse_id_and_name : Bytes → Option IdAndName
unfolding id_and_name
parse_id_and_name args = let p = cut b' ' args in id_and_name p.before p.after

pub record TwoIds : Type 0 where
  pub first : Bytes
  pub second : Bytes

two_ids : List Bytes → Option TwoIds
two_ids [] = none
two_ids (a ∷ []) = none
two_ids (a ∷ b ∷ _) = some (record { first = a; second = b })

unfoldable pub parse_two_ids : Bytes → Option TwoIds
unfolding two_ids
parse_two_ids args = two_ids (fields args)
