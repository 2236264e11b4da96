-- ===== src/Ctlparse/Ids.antt =====
-- The identifiers that the decoders of arguments let through (internal/ctlparse/ctlparse.go).
use gotmucks.Base.{
  ℕ, Bool, true, false, List, [], ◌∷◌, ◌≡◌, ◌⊎◌, inl, refl, arith, Bytes, some, codes,
}
use gotmucks.Strings.{cut, cut_text, fields}
use gotmucks.Ids.{valid_id, all_digits, session_sigil, window_sigil, pane_sigil}
use gotmucks.Ctlparse.Args.{
  digits_only, has_sigil_and_digits, Output, parse_output, extended_plain, extended_meta,
  parse_extended_output, Subscription, no_value, index_field, subscription_field,
  subscription_fields, subscription_named, parse_subscription_changed, Layout, layout_fields,
  parse_layout_change,
}

digits_only-all_digits : (s : Bytes) → digits_only s ≡ all_digits s
unfolding digits_only all_digits
digits_only-all_digits [] = refl
digits_only-all_digits (c ∷ s) = ground (arith, digits_only-all_digits s)

-- The two tests of an identifier, of the parser and of the public types, agree on every text and
-- sigil.
has_sigil_and_digits-valid_id :
    (s : Bytes) (sigil : ℕ) → has_sigil_and_digits s sigil ≡ valid_id s sigil
unfolding has_sigil_and_digits valid_id
has_sigil_and_digits-valid_id [] sigil = refl
has_sigil_and_digits-valid_id (c ∷ []) sigil = refl
has_sigil_and_digits-valid_id (c ∷ d ∷ s) sigil = ground (arith, digits_only-all_digits (d ∷ s))

-- The output of a pane names a pane.
pub parse_output-valid_id :
    (args : Bytes) (o : Output) → parse_output args ≡ some o → valid_id o.pane pane_sigil ≡ true
unfolding parse_output
parse_output-valid_id args o h =
    ground (arith, has_sigil_and_digits-valid_id (cut b' ' args).before pane_sigil)

extended_plain-pane :
    (pane rest : Bytes) (o : Output) → extended_plain pane rest ≡ some o → o.pane ≡ pane
unfolding extended_plain
extended_plain-pane pane rest o h = ground arith

extended_meta-pane :
    (pane : Bytes) (fs : List Bytes) (payload : Bytes) (o : Output)
    → extended_meta pane fs payload ≡ some o
    → o.pane ≡ pane
unfolding extended_meta
extended_meta-pane pane fs payload o h = ground arith

pub parse_extended_output-valid_id :
    (args : Bytes) (o : Output)
    → parse_extended_output args ≡ some o
    → valid_id o.pane pane_sigil ≡ true
unfolding parse_extended_output
parse_extended_output-valid_id args o h = ground (
  arith,
  has_sigil_and_digits-valid_id (cut b' ' args).before pane_sigil,
  extended_plain-pane (cut b' ' args).before (cut b' ' args).after o,
  extended_meta-pane (cut b' ' args).before
      (fields (cut_text (codes " : ") (cut b' ' args).after).before)
      (cut_text (codes " : ") (cut b' ' args).after).after o,
)

layout_fields-valid_id :
    (fs : List Bytes) (l : Layout)
    → layout_fields fs ≡ some l
    → valid_id l.window window_sigil ≡ true
unfolding layout_fields
layout_fields-valid_id [] l h = ground arith
layout_fields-valid_id (w ∷ []) l h = ground arith
layout_fields-valid_id (w ∷ t ∷ more) l h =
    ground (arith, has_sigil_and_digits-valid_id w window_sigil)

-- A layout is that of a window.
pub parse_layout_change-valid_id :
    (args : Bytes) (l : Layout)
    → parse_layout_change args ≡ some l
    → valid_id l.window window_sigil ≡ true
unfolding parse_layout_change
parse_layout_change-valid_id args l h = layout_fields-valid_id (fields args) l h

-- An identifier of this kind, or none.
abbrev pub IsIdOrEmpty : Bytes → ℕ → Type 0
IsIdOrEmpty s sigil = (s ≡ []) ⊎ (valid_id s sigil ≡ true)

pub record HasIds (s : Subscription) : Type 0 where
  pub session : IsIdOrEmpty s.session session_sigil
  pub window : IsIdOrEmpty s.window window_sigil
  pub pane : IsIdOrEmpty s.pane pane_sigil

subscription_field-HasIds :
    (s : Subscription) (f : Bytes) → HasIds s → HasIds (subscription_field s f)
unfolding subscription_field index_field
subscription_field-HasIds s f h = ground (
  arith,
  has_sigil_and_digits-valid_id f session_sigil,
  has_sigil_and_digits-valid_id f window_sigil,
  has_sigil_and_digits-valid_id f pane_sigil,
)

subscription_fields-HasIds :
    (fs : List Bytes) (s : Subscription) → HasIds s → HasIds (subscription_fields s fs)
unfolding subscription_fields
subscription_fields-HasIds [] s h = h
subscription_fields-HasIds (f ∷ fs) s h =
    subscription_fields-HasIds fs (subscription_field s f) (subscription_field-HasIds s f h)

subscription_named-HasIds :
    (name : Bytes) (found : Bool) (rest : Bytes) (s : Subscription)
    → subscription_named name found rest ≡ some s
    → HasIds s
unfolding subscription_named
subscription_named-HasIds [] found rest s h = ground arith
subscription_named-HasIds (c ∷ n) false rest s h = ground arith
subscription_named-HasIds (c ∷ n) true rest s h =
    let m = cut_text (codes " : ") rest in
    ground (
      arith,
      subscription_fields-HasIds (fields m.before) (record (no_value (c ∷ n)) { value = m.after })
          (record { session = inl refl; window = inl refl; pane = inl refl }),
    )

-- A subscription's value that is read names a session, a window and a pane by well-formed
-- identifiers, or leaves the place of each empty.
pub parse_subscription_changed-HasIds :
    (args : Bytes) (s : Subscription) → parse_subscription_changed args ≡ some s → HasIds s
unfolding parse_subscription_changed
parse_subscription_changed-HasIds args s h =
    subscription_named-HasIds (cut b' ' args).before (cut b' ' args).found (cut b' ' args).after s h
