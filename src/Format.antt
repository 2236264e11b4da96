-- ===== src/Format.antt =====
-- format.go: the format template of a specification, and the rows of its output.
pub mod Rows
pub mod Reads
pub mod Template
pub mod Access
pub mod Query
pub mod Fields
pub mod Printed
use gotmucks.Base.{
  ℕ, zero, suc, Bool, true, false, not, ◌&&◌, ◌||◌, ◌-◌, List, [], ◌∷◌, ◌++◌, Bytes, Option, none,
  some, codes, ltb, leb, ◌==◌, length, take, drop, get_elem?, bytes_eq, contains_byte,
  if◌then◌else◌,
}
use gotmucks.Strings.{split, join}

abbrev pub FormatSpec : Type 0
FormatSpec = List Bytes

abbrev pub field_sep : ℕ
field_sep = b'\t'

abbrev pub line_sep : ℕ
line_sep = b'\n'

unfoldable pub bare_byte : ℕ → Bool
bare_byte c =
    (leb b'a' c && leb c b'z')
    || (leb b'A' c && leb c b'Z')
    || (leb b'0' c && leb c b'9')
    || c == b'_'
    || c == b'-'
    || c == b'@'

-- The loop of `isBareVar`.
unfoldable pub bare_bytes : Bytes → Bool
bare_bytes [] = true
bare_bytes (c ∷ s) = let rest = bare_bytes s in if bare_byte c then rest else false

unfoldable pub is_bare_var : Bytes → Bool
unfolding bare_bytes bare_byte
is_bare_var [] = false
is_bare_var (c ∷ s) = bare_bytes (c ∷ s)

unfoldable pub row_safe_var : Bytes → Bool → Bytes
row_safe_var f drop_tab =
    let subs = codes "s/" ++ line_sep ∷ codes "/ /" in
    let both = if drop_tab then codes "s/" ++ field_sep ∷ codes "/ /;" ++ subs else subs in
    codes "#{" ++ both ++ codes ":" ++ f ++ codes "}"

-- `strings.ReplaceAll(s, "#", "##")`; with no '#' to replace, that is the text itself.
unfoldable pub double_hash : Bytes → Bytes
double_hash [] = []
double_hash (c ∷ s) = let rest = double_hash s in if c == b'#' then b'#' ∷ b'#' ∷ rest else c ∷ rest

unfoldable pub escape_format : Bytes → Bytes
unfolding double_hash contains_byte
escape_format s = if not (contains_byte b'#' s) then s else double_hash s

unfoldable pub format_var : Bytes → Bytes
unfolding contains_byte
format_var f = if contains_byte b'#' f then f else codes "#{" ++ f ++ codes "}"

abbrev is_nil : FormatSpec → Bool
is_nil [] = true
is_nil (f ∷ fs) = false

-- The loop of `Arg`.
unfoldable pub arg_parts : FormatSpec → List Bytes
unfolding is_bare_var row_safe_var format_var
arg_parts [] = []
arg_parts (f ∷ fs) =
    (if is_bare_var f then row_safe_var f (not (is_nil fs)) else format_var f) ∷ arg_parts fs

unfoldable pub arg : FormatSpec → Bytes
unfolding arg_parts
arg s = join (field_sep ∷ []) (arg_parts s)

pub record Row : Type 0 where
  pub spec : FormatSpec
  pub vals : List Bytes

-- `At` for an index that is not negative; a missing field is the empty text.
unfoldable pub at : Row → ℕ → Bytes
at r i = elim (get_elem? r.vals i) [ some v ↦ v | none ↦ [] ]

-- The loop of `Lookup`; the fields are those from the index on.
lookup_from : Bytes → FormatSpec → List Bytes → Option Bytes
unfolding bytes_eq
lookup_from name [] vs = none
lookup_from name (f ∷ fs) [] = none
lookup_from name (f ∷ fs) (v ∷ vs) = if bytes_eq f name then some v else lookup_from name fs vs

unfoldable pub lookup : Row → Bytes → Option Bytes
unfolding lookup_from
lookup r name = lookup_from name r.spec r.vals

unfoldable pub get : Row → Bytes → Bytes
get r name = elim (lookup r name) [ some v ↦ v | none ↦ [] ]

pub data Parsed : Type 0 where
  rows : List Row → Parsed
  empty_spec : Parsed
  -- the number of the line, the fields it has, the fields wanted, and the line
  short_line : ℕ → ℕ → ℕ → Bytes → Parsed

abbrev onto_rows : Row → Parsed → Parsed
onto_rows r (rows rs) = rows (r ∷ rs)
onto_rows r empty_spec = empty_spec
onto_rows r (short_line i n m l) = short_line i n m l

-- The fields beyond the last column are part of its value.
unfoldable pub fold_extra : ℕ → List Bytes → List Bytes
fold_extra n vals =
    if ltb n (length vals)
    then take (n - 1) vals ++ join (field_sep ∷ []) (drop (n - 1) vals) ∷ []
    else vals

-- The loop of `ParseRows` at line `i + 1`; the rows found are put in front of those that follow, so
-- the first error is the result.
unfoldable pub rows_from : ℕ → FormatSpec → List Bytes → Parsed
unfolding fold_extra
rows_from i spec [] = rows []
rows_from i spec (line ∷ lines) =
    let vals = split field_sep line in
    let rest = rows_from (suc i) spec lines in
    if bytes_eq line [] && ltb 1 (length spec)
    then rest
    else if ltb (length vals) (length spec)
    then short_line (suc i) (length vals) (length spec) line
    else onto_rows (record { spec = spec; vals = fold_extra (length spec) vals }) rest

unfoldable pub parse_rows : FormatSpec → List Bytes → Parsed
unfolding rows_from
parse_rows [] lines = empty_spec
parse_rows (f ∷ fs) lines = rows_from 0 (f ∷ fs) lines
