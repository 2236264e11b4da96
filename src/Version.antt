-- ===== src/Version.antt =====
-- version.go: tmux versions. `Major` and `Minor` are 64-bit integers, whose difference wraps around.
pub mod Order
use gotmucks.Base.{
  ℕ, zero, suc, Bool, true, false, not, ◌&&◌, ◌||◌, ◌+◌, ◌-◌, ◌^◌, List, [], ◌∷◌, ◌++◌, Bytes,
  Option, none, some, codes, ltb, leb, ◌==◌, bytes_eq, if◌then◌else◌,
}
use gotmucks.Base.Int.{ℤ, pos, negsuc, ltb_ℤ, eqb_ℤ, int64, sub_ℤ}
use gotmucks.Strings.{trim_space, fields, has_prefix, cut_prefix, cut, Pieces, parse_int, is_digit}

pub record Version : Type 0 where
  pub major : ℤ
  pub minor : ℤ
  pub suffix : Bytes
  pub next : Bool
  pub raw : Bytes
  pub unknown : Bool

abbrev pub version_zero : Bytes → Version
version_zero raw = record {
  major = pos 0;
  minor = pos 0;
  suffix = [];
  next = false;
  raw = raw;
  unknown = false;
}

abbrev pub minimum_version : Version
minimum_version = record (version_zero []) { major = pos 3; minor = pos 2 }

unfoldable pub is_pre_release : Bytes → Bool
is_pre_release suffix = has_prefix (codes "-") suffix

unfoldable pub sign : ℤ → ℤ
sign n = if ltb_ℤ n (pos 0) then negsuc 0 else if ltb_ℤ (pos 0) n then pos 1 else pos 0

-- `strings.Compare`, which compares byte by byte.
unfoldable pub compare_bytes : Bytes → Bytes → ℤ
compare_bytes [] [] = pos 0
compare_bytes [] (d ∷ t) = negsuc 0
compare_bytes (c ∷ s) [] = pos 1
compare_bytes (c ∷ s) (d ∷ t) =
    let rest = compare_bytes s t in if ltb c d then negsuc 0 else if ltb d c then pos 1 else rest

abbrev differ : Bool → Bool → Bool
differ a b = (a && not b) || (not a && b)

-- The comparison of two versions that are known, part by part.
compare_suffix : Version → Version → ℤ
unfolding is_pre_release
compare_suffix v w =
    if differ (is_pre_release v.suffix) (is_pre_release w.suffix)
    then (if is_pre_release v.suffix then negsuc 0 else pos 1)
    else compare_bytes v.suffix w.suffix

compare_next : Version → Version → ℤ
unfolding compare_suffix
compare_next v w =
    if differ v.next w.next then (if v.next then negsuc 0 else pos 1) else compare_suffix v w

compare_numbers : Version → Version → ℤ
unfolding compare_next sign
compare_numbers v w =
    if not (eqb_ℤ v.major w.major)
    then sign (int64 (sub_ℤ v.major w.major))
    else if not (eqb_ℤ v.minor w.minor)
    then sign (int64 (sub_ℤ v.minor w.minor))
    else compare_next v w

unfoldable pub compare : Version → Version → ℤ
unfolding compare_numbers
compare v w =
    if v.unknown && w.unknown
    then pos 0
    else if v.unknown
    then pos 1
    else if w.unknown
    then negsuc 0
    else compare_numbers v w

unfoldable pub at_least : Version → Version → Bool
at_least v w = not (ltb_ℤ (compare v w) (pos 0))

unfoldable pub escapes_dollar_on_write : Version → Bool
escapes_dollar_on_write v =
    not v.unknown
    && not v.next
    && eqb_ℤ v.major (pos 3)
    && eqb_ℤ v.minor (pos 4)
    && not (is_pre_release v.suffix)

-- The last of the fields, if there are two or more, and else the text.
last_field : Bytes → List Bytes → Bytes
last_field s [] = s
last_field s (f ∷ []) = s
last_field s (f ∷ g ∷ []) = g
last_field s (f ∷ g ∷ h ∷ fs) = last_field s (g ∷ h ∷ fs)

-- What follows the last '-', if there is one.
unfoldable pub after_last_dash : Bytes → Option Bytes
after_last_dash [] = none
after_last_dash (c ∷ s) = elim (after_last_dash s) [
  | some t ↦ some t
  | none ↦ (if c == b'-' then some s else none)
]

-- The major number and what follows the first '.'; `none` where either is missing.
major_part : Bytes → Option (ℤ × Bytes)
major_part field =
    let p = cut b'.' field in
    elim (parse_int p.before) [
      | none ↦ none
      | some n ↦ (if p.found then some (n, p.after) else none)
    ]

major_or_after_dash : Bytes → Option (ℤ × Bytes) → Option (ℤ × Bytes)
unfolding major_part after_last_dash
major_or_after_dash field (some r) = some r
major_or_after_dash field none = elim (after_last_dash field) [
  | none ↦ none
  | some t ↦ major_part t
]

-- The digits that a text begins with, and the rest.
unfoldable pub leading_digits : Bytes → Bytes × Bytes
leading_digits [] = ([], [])
leading_digits (c ∷ s) =
    let (ds, rest) = leading_digits s in if is_digit c then (c ∷ ds, rest) else ([], c ∷ s)

-- From the minor number on; `parse_int` fails on no digits at all too.
with_minor : Version → Option (ℤ × Bytes) → Version
unfolding leading_digits
with_minor v none = record v { unknown = true }
with_minor v (some (major, rest)) =
    let (ds, suffix) = leading_digits rest in
    elim (parse_int ds) [
      | none ↦ record v { unknown = true }
      | some minor ↦ record v { major = major; minor = minor; suffix = suffix }
    ]

without_next : Version → Bytes → Version
unfolding with_minor major_or_after_dash
without_next v field = elim (cut_prefix (codes "next-") field) [
  | some rest ↦ with_minor (record v { next = true }) (major_or_after_dash rest (major_part rest))
  | none ↦ with_minor v (major_or_after_dash field (major_part field))
]

-- `ParseVersion`; `none` is its error.
parse_trimmed : Bytes → Option Version
unfolding without_next last_field
parse_trimmed [] = none
parse_trimmed (c ∷ s) =
    some (without_next (version_zero (c ∷ s)) (last_field (c ∷ s) (fields (c ∷ s))))

unfoldable pub parse_version : Bytes → Option Version
unfolding parse_trimmed
parse_version s = parse_trimmed (trim_space s)
