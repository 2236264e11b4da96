-- ===== src/Format/Access.antt =====
-- format.go: the fields of a row as numbers, flags, times and identifiers.
use gotmucks.Base.{
  Bool, true, false, ◌||◌, List, [], ◌∷◌, Bytes, Option, none, some, codes, if◌then◌else◌, bytes_eq,
}
use gotmucks.Base.Int.{ℤ, pos}
use gotmucks.Strings.{parse_int}
use gotmucks.Ids.{
  IdError, Parsed, ok, err, SessionId, WindowId, PaneId, parse_session_id, parse_window_id,
  parse_pane_id,
}
use gotmucks.Dict.{Dict, put}
use gotmucks.Errors.{to_lower}
use gotmucks.Format.{FormatSpec, Row, lookup}

-- The field's name and its text.
pub data FieldError : Type 0 where
  not_integer not_boolean not_timestamp : Bytes → Bytes → FieldError
  bad_field_id : IdError → FieldError

pub data Field (A : Type 0) : Type 0 where
  value : A → Field A
  wrong : FieldError → Field A

infixl 5 ◌>>=◌
abbrev pub ◌>>=◌ : {A B : Type 0} → Field A → (A → Field B) → Field B
value a >>= f = f a
wrong e >>= f = wrong e

-- A field that is missing or empty has the zero value.
abbrev or_zero : {A : Type 0} → A → (Bytes → Field A) → Option Bytes → Field A
or_zero zero f none = value zero
or_zero zero f (some []) = value zero
or_zero zero f (some (c ∷ s)) = f (c ∷ s)

abbrev or_wrong : {A : Type 0} → FieldError → Option A → Field A
or_wrong e none = wrong e
or_wrong e (some a) = value a

unfoldable pub row_int : Row → Bytes → Field ℤ
unfolding lookup parse_int
row_int r name = or_zero (pos 0) (λ v. or_wrong (not_integer name v) (parse_int v)) (lookup r name)

abbrev bool_of : Bytes → Option Bool
unfolding bytes_eq
bool_of s =
    if bytes_eq s (codes "1")
      || bytes_eq s (codes "on")
      || bytes_eq s (codes "yes")
      || bytes_eq s (codes "true")
    then some true
    else if bytes_eq s (codes "0")
        || bytes_eq s (codes "off")
        || bytes_eq s (codes "no")
        || bytes_eq s (codes "false")
    then some false
    else none

unfoldable pub row_bool : (Bytes → Bytes) → Row → Bytes → Field Bool
unfolding lookup to_lower bool_of
row_bool unicode r name =
    or_zero false (λ v. or_wrong (not_boolean name v) (bool_of (to_lower unicode v)))
      (lookup r name)

-- The seconds of a time, or `none` for the zero time.
abbrev pub Time : Type 0
Time = Option ℤ

abbrev time_of : Bytes → Bytes → Field Time
unfolding parse_int
time_of name v = elim (parse_int v) [
  | none ↦ wrong (not_timestamp name v)
  | some n ↦ value (some n)
]

unfoldable pub row_time : Row → Bytes → Field Time
unfolding lookup time_of
row_time r name = or_zero none (time_of name) (lookup r name)

abbrev text_or_empty : Option Bytes → Bytes
text_or_empty none = []
text_or_empty (some v) = v

abbrev id_field : {A : Type 0} → Parsed A → Field A
id_field (ok id) = value id
id_field (err e) = wrong (bad_field_id e)

unfoldable pub row_session_id : Row → Bytes → Field SessionId
unfolding lookup
row_session_id r name = id_field (parse_session_id (text_or_empty (lookup r name)))

unfoldable pub row_window_id : Row → Bytes → Field WindowId
unfolding lookup
row_window_id r name = id_field (parse_window_id (text_or_empty (lookup r name)))

unfoldable pub row_pane_id : Row → Bytes → Field PaneId
unfolding lookup
row_pane_id r name = id_field (parse_pane_id (text_or_empty (lookup r name)))

-- The loop of `Map`; a later field of the same name replaces an earlier one.
unfoldable pub fields_map : FormatSpec → List Bytes → Dict → Dict
unfolding put
fields_map [] vs m = m
fields_map (f ∷ fs) [] m = m
fields_map (f ∷ fs) (v ∷ vs) m = fields_map fs vs (put f v m)

unfoldable pub row_map : Row → Dict
unfolding fields_map
row_map r = fields_map r.spec r.vals []
