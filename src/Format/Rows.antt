-- ===== src/Format/Rows.antt =====
-- `ParseRows` of format.go, against the lines that tmux writes for rows.
use gotmucks.Base.{
  ℕ, suc, false, ◌-◌, ◌≤◌, ◌<◌, List, [], ◌∷◌, ◌++◌, ◌≡◌, ◌≢◌, refl, ap, ◌∙◌, arith, Bytes, All,
  Lacks, length, length-append, ◌&&◌, take, drop, ltb, bytes_eq, Bool-cases, inl, inr, map,
}
use gotmucks.Strings.{split, join, split-append, join-split, split-ne-nil}
use gotmucks.Format.{FormatSpec, field_sep, Row, rows, fold_extra, rows_from, parse_rows}

-- The values of a row: those in front, which have no tab, and the last, which may.
pub record Values : Type 0 where
  pub front : List Bytes
  pub last : Bytes

abbrev pub values : Values → List Bytes
values v = v.front ++ v.last ∷ []

-- The line that tmux writes for them.
abbrev pub printed : Values → Bytes
printed v = join (field_sep ∷ []) (values v)

pub join-cons :
    (p : Bytes) (ps : List Bytes)
    → ps ≢ []
    → join (field_sep ∷ []) (p ∷ ps) ≡ p ++ field_sep ∷ join (field_sep ∷ []) ps
unfolding join
join-cons p [] n = absurd (n refl)
join-cons p (q ∷ ps) n = refl

pub join-one : (p : Bytes) → join (field_sep ∷ []) (p ∷ []) ≡ p
unfolding join
join-one p = refl

concat-ne-nil : (ps : List Bytes) (p : Bytes) → ps ++ p ∷ [] ≢ []
concat-ne-nil [] p e = ground arith
concat-ne-nil (q ∷ ps) p e = ground arith

split-printed :
    (front : List Bytes) (last : Bytes)
    → All (Lacks field_sep) front
    → split field_sep (join (field_sep ∷ []) (front ++ last ∷ [])) ≡ front ++ split field_sep last
split-printed [] last h = ap (split field_sep) (join-one last)
split-printed (p ∷ front) last h =
    ap (split field_sep) (join-cons p (front ++ last ∷ []) (concat-ne-nil front last))
    ∙ split-append field_sep p _ h.0
    ∙ ap (◌∷◌ p) (split-printed front last h.1)

take-front : (xs ys : List Bytes) → take (length xs) (xs ++ ys) ≡ xs
take-front [] ys = refl
take-front (x ∷ xs) ys = ap (◌∷◌ x) (take-front xs ys)

drop-front : (xs ys : List Bytes) → drop (length xs) (xs ++ ys) ≡ ys
drop-front [] ys = refl
drop-front (x ∷ xs) ys = drop-front xs ys

-- A list of one part is what it spells.
one_part : (ps : List Bytes) → ps ≢ [] → length ps ≤ 1 → ps ≡ join (field_sep ∷ []) ps ∷ []
unfolding join
one_part [] n h = absurd (n refl)
one_part (p ∷ []) n h = refl
one_part (p ∷ q ∷ ps) n h = absurd (omega arith)

suc_pred : (n : ℕ) → suc n - 1 ≡ n
suc_pred n = omega arith

fold_extra-parts :
    (front ps : List Bytes)
    → ps ≢ []
    → fold_extra (suc (length front)) (front ++ ps) ≡ front ++ join (field_sep ∷ []) ps ∷ []
unfolding fold_extra
fold_extra-parts front ps n = elim (Bool-cases (ltb (suc (length front)) (length (front ++ ps)))) [
  | inl more ↦ rw (more, suc_pred (length front), take-front front ps, drop-front front ps) refl
  | inr few ↦ rw few (ap (λ t. front ++ t) (one_part ps n (ground (arith, length-append front ps))))
]

fold_extra-printed :
    (v : Values)
    → All (Lacks field_sep) v.front
    → fold_extra (suc (length v.front)) (split field_sep (printed v)) ≡ values v
fold_extra-printed v h =
    ap (fold_extra (suc (length v.front))) (split-printed v.front v.last h)
    ∙ fold_extra-parts v.front _ (split-ne-nil field_sep v.last)
    ∙ ap (λ l. v.front ++ l ∷ []) (join-split field_sep v.last)

bytes_eq-nil : (p s : Bytes) (c : ℕ) → bytes_eq (p ++ c ∷ s) [] ≡ false
unfolding bytes_eq
bytes_eq-nil [] s c = refl
bytes_eq-nil (d ∷ p) s c = refl

-- A line with a separator is not blank.
printed_blank :
    (front : List Bytes) (last : Bytes)
    → 1 < suc (length front)
    → bytes_eq (join (field_sep ∷ []) (front ++ last ∷ [])) [] ≡ false
printed_blank [] last h = absurd (omega arith)
printed_blank (p ∷ front) last h =
    rw (join-cons p (front ++ last ∷ []) (concat-ne-nil front last)) (bytes_eq-nil p _ field_sep)

-- Values for the columns of a specification, none of which but the last has a tab.
pub record IsRow (spec : FormatSpec) (v : Values) : Type 0 where
  pub width : length spec ≡ suc (length v.front)
  pub no_tab : All (Lacks field_sep) v.front

ne-nil-length : (ps : List Bytes) → ps ≢ [] → 1 ≤ length ps
ne-nil-length [] n = absurd (n refl)
ne-nil-length (p ∷ ps) n = omega arith

printed-width :
    (spec : FormatSpec) (v : Values)
    → IsRow spec v
    → ltb (length (split field_sep (printed v))) (length spec) ≡ false
printed-width spec v h =
    ap (λ ps. ltb (length ps) (length spec)) (split-printed v.front v.last h.no_tab)
    ∙ ground (
      arith,
      h.width,
      length-append v.front (split field_sep v.last),
      ne-nil-length _ (split-ne-nil field_sep v.last),
    )

not_skipped :
    (spec : FormatSpec) (v : Values)
    → IsRow spec v
    → (bytes_eq (printed v) [] && ltb 1 (length spec)) ≡ false
not_skipped spec v h = ground (arith, h.width, printed_blank v.front v.last)

abbrev pub row_of : FormatSpec → Values → Row
row_of spec v = record { spec = spec; vals = values v }

rows_from-printed :
    (spec : FormatSpec) (vs : List Values) (i : ℕ)
    → All (IsRow spec) vs
    → rows_from i spec (map printed vs) ≡ rows (map (row_of spec) vs)
unfolding rows_from
rows_from-printed spec [] i h = refl
rows_from-printed spec (v ∷ vs) i h =
    let rest = rows_from-printed spec vs (suc i) h.1 in
    let folded =
      ap (λ n. fold_extra n (split field_sep (printed v))) h.0.width
      ∙ fold_extra-printed v h.0.no_tab in
    rw (not_skipped spec v h.0, printed-width spec v h.0, folded, rest) refl

-- For a specification of one column or more, rows of one value for each column, of which none but
-- the last holds a tab, are read back value by value from the lines in which tabs separate them.
pub parse_rows-printed :
    (f : Bytes) (fs : FormatSpec) (vs : List Values)
    → All (IsRow (f ∷ fs)) vs
    → parse_rows (f ∷ fs) (map printed vs) ≡ rows (map (row_of (f ∷ fs)) vs)
unfolding parse_rows
parse_rows-printed f fs vs h = rows_from-printed (f ∷ fs) vs 0 h
