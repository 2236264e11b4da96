-- ===== src/Format/Reads.antt =====
-- `ParseRows` of format.go on any lines: what its rows and its error say of the lines.
use gotmucks.Base.{
  All-take, ℕ, zero, suc, ◌+◌, ◌-◌, ◌≤◌, ◌<◌, List, [], ◌∷◌, ◌++◌, ◌≡◌, ◌≢◌, refl, sym, ap, ◌∙◌,
  arith, Bytes, All, Lacks, length, length-append, ◌&&◌, ltb→lt, take, drop, ltb, bytes_eq,
  Bool-cases, inl, inr, ◌==◌, if◌then◌else◌, bytes_eq_iff,
}
use gotmucks.Strings.{split, join, join-split, split-ne-nil, onto_head}
use gotmucks.Format.{
  FormatSpec, field_sep, Row, Parsed, rows, empty_spec, short_line, fold_extra, rows_from,
  parse_rows, onto_rows,
}
use gotmucks.Format.Rows.{join-cons, join-one}

-- The fields of a line: one more than it has tabs.
unfoldable pub fields_in : Bytes → ℕ
fields_in [] = 1
fields_in (c ∷ s) = let rest = fields_in s in if c == field_sep then suc rest else rest

-- A line is blank, for a specification of more than one column.
abbrev IsSkipped : FormatSpec → Bytes → Type 0
IsSkipped spec line = (line ≡ []) × (1 < length spec)

-- A value for each column, in which no tab is but in the last; tabs between them spell the line.
pub record Spells (spec : FormatSpec) (line : Bytes) (r : Row) : Type 0 where
  pub columns : r.spec ≡ spec
  pub width : length r.vals ≡ length spec
  pub text : join (field_sep ∷ []) r.vals ≡ line
  pub no_tab : All (Lacks field_sep) (take (length spec - 1) r.vals)

-- These lines, but for the skipped ones, have fields enough, and are the rows in order.
pub data Read (spec : FormatSpec) : List Bytes → List Row → Type 0 where
  nothing : Read spec [] []
  skipped :
      (line : Bytes) (lines : List Bytes) (rs : List Row)
      → IsSkipped spec line
      → Read spec lines rs
      → Read spec (line ∷ lines) rs
  row :
      (line : Bytes) (lines : List Bytes) (r : Row) (rs : List Row)
      → ¬ IsSkipped spec line
      → length spec ≤ fields_in line
      → Spells spec line r
      → Read spec lines rs
      → Read spec (line ∷ lines) (r ∷ rs)

-- Where `k` lines came before these: the line is the first of these that has too few fields; the
-- numbers are its own, from 1, its fields and the columns.
pub record Refuses (k : ℕ) (spec : FormatSpec) (lines : List Bytes) (i n m : ℕ) (line : Bytes)
    : Type 0 where
  pub before : List Bytes
  pub after : List Bytes
  pub found : List Row
  pub place : lines ≡ before ++ line ∷ after
  pub earlier : Read spec before found
  pub counted : i ≡ k + suc (length before)
  pub has : n ≡ fields_in line
  pub wants : m ≡ length spec
  pub few : n < m
  pub kept : ¬ IsSkipped spec line

abbrev pub Answers : FormatSpec → List Bytes → Parsed → Type 0
Answers spec lines (rows rs) = (spec ≢ []) × Read spec lines rs
Answers spec lines empty_spec = spec ≡ []
Answers spec lines (short_line i n m line) = Refuses 0 spec lines i n m line

length-onto_head : (c : ℕ) (ps : List Bytes) → ps ≢ [] → length (onto_head c ps) ≡ length ps
length-onto_head c [] n = absurd (n refl)
length-onto_head c (p ∷ ps) n = refl

length-split : (s : Bytes) → length (split field_sep s) ≡ fields_in s
unfolding split fields_in
length-split [] = refl
length-split (c ∷ s) =
    ground
      (arith, length-split s, length-onto_head c (split field_sep s) (split-ne-nil field_sep s))

Lacks-onto_head :
    (b c : ℕ) (ps : List Bytes) → c ≢ b → All (Lacks b) ps → All (Lacks b) (onto_head c ps)
Lacks-onto_head b c [] n h = ((n, tt), tt)
Lacks-onto_head b c (p ∷ ps) n h = ((n, h.0), h.1)

split-Lacks : (b : ℕ) (s : Bytes) → All (Lacks b) (split b s)
unfolding split
split-Lacks b [] = (tt, tt)
split-Lacks b (c ∷ s) = elim (Bool-cases (c == b)) [
  | inl e ↦ rw e (tt, split-Lacks b s)
  | inr e ↦ rw e (Lacks-onto_head b c (split b s) (ground (arith, e)) (split-Lacks b s))
]

length-take : {A : Type 0} (n : ℕ) (xs : List A) → n ≤ length xs → length (take n xs) ≡ n
length-take zero [] h = refl
length-take zero (x ∷ xs) h = refl
length-take (suc n) [] h = absurd (omega arith)
length-take (suc n) (x ∷ xs) h = ap suc (length-take n xs (omega arith))

length-fold_extra :
    (n : ℕ) (vals : List Bytes) → 1 ≤ n → n ≤ length vals → length (fold_extra n vals) ≡ n
unfolding fold_extra
length-fold_extra n vals p h = ground (
  arith,
  length-take (n - 1) vals,
  length-append (take (n - 1) vals) (join (field_sep ∷ []) (drop (n - 1) vals) ∷ []),
)

take-take-append :
    (n : ℕ) (xs ys : List Bytes) → n ≤ length xs → take n (take n xs ++ ys) ≡ take n xs
take-take-append zero xs ys h = refl
take-take-append (suc n) [] ys h = absurd (omega arith)
take-take-append (suc n) (x ∷ xs) ys h = ap (◌∷◌ x) (take-take-append n xs ys (omega arith))

take-fold_extra : (n : ℕ) (vals : List Bytes) → take (n - 1) (fold_extra n vals) ≡ take (n - 1) vals
unfolding fold_extra
take-fold_extra n vals = elim (Bool-cases (ltb n (length vals))) [
  | inl more ↦ rw more (take-take-append (n - 1) vals _ (ground (arith, more)))
  | inr few ↦ rw few refl
]

append-cons-ne : (xs : List Bytes) (y : Bytes) → xs ++ y ∷ [] ≢ []
append-cons-ne [] y e = ground arith
append-cons-ne (x ∷ xs) y e = ground arith

longer-ne-nil : (k : ℕ) (ps : List Bytes) → k < length ps → ps ≢ []
longer-ne-nil k [] h = absurd (omega arith)
longer-ne-nil k (p ∷ ps) h = ground arith

join-folded :
    (k : ℕ) (ps : List Bytes)
    → k < length ps
    → join (field_sep ∷ []) (take k ps ++ join (field_sep ∷ []) (drop k ps) ∷ [])
      ≡ join (field_sep ∷ []) ps
join-folded zero ps h = join-one _
join-folded (suc k) [] h = absurd (omega arith)
join-folded (suc k) (p ∷ ps) h =
    join-cons p _ (append-cons-ne (take k ps) _)
    ∙ ap (λ t. p ++ field_sep ∷ t) (join-folded k ps (omega arith))
    ∙ sym (join-cons p ps (longer-ne-nil k ps (omega arith)))

join-fold_extra :
    (n : ℕ) (vals : List Bytes)
    → join (field_sep ∷ []) (fold_extra n vals) ≡ join (field_sep ∷ []) vals
unfolding fold_extra
join-fold_extra n vals = elim (Bool-cases (ltb n (length vals))) [
  | inl more ↦ rw more (join-folded (n - 1) vals (ground (arith, more)))
  | inr few ↦ rw few refl
]

-- The row that is made of a line with fields enough.
folded-Spells :
    (f : Bytes) (fs : FormatSpec) (line : Bytes)
    → suc (length fs) ≤ fields_in line
    → Spells
        (f ∷ fs)
        line
        (record { spec = f ∷ fs; vals = fold_extra (suc (length fs)) (split field_sep line) })
folded-Spells f fs line h =
    let vals = split field_sep line in
    let n = suc (length fs) in
    record {
      columns = refl;
      width = length-fold_extra n vals (omega arith) (omega (arith, length-split line));
      text = join-fold_extra n vals ∙ join-split field_sep line;
      no_tab =
          rw (take-fold_extra n vals)
            (All-take (Lacks field_sep) (n - 1) vals (split-Lacks field_sep line));
    }

-- What the loop answers from this line number on.
abbrev From : ℕ → FormatSpec → List Bytes → Parsed → Type 0
From k spec lines (rows rs) = Read spec lines rs
From k spec lines empty_spec = ⊥
From k spec lines (short_line i n m line) = Refuses k spec lines i n m line

more-skipped :
    (k : ℕ) (spec : FormatSpec) (line : Bytes) (lines : List Bytes) (p : Parsed)
    → IsSkipped spec line
    → From (suc k) spec lines p
    → From k spec (line ∷ lines) p
more-skipped k spec line lines (rows rs) s h = skipped line lines rs s h
more-skipped k spec line lines empty_spec s h = h
more-skipped k spec line lines (short_line i n m l) s h = record {
  before = line ∷ h.before;
  after = h.after;
  found = h.found;
  place = ap (◌∷◌ line) h.place;
  earlier = skipped line h.before h.found s h.earlier;
  counted = omega (arith, h.counted);
  has = h.has;
  wants = h.wants;
  few = h.few;
  kept = h.kept;
}

more-row :
    (k : ℕ) (spec : FormatSpec) (line : Bytes) (lines : List Bytes) (r : Row) (p : Parsed)
    → ¬ IsSkipped spec line
    → length spec ≤ fields_in line
    → Spells spec line r
    → From (suc k) spec lines p
    → From k spec (line ∷ lines) (onto_rows r p)
more-row k spec line lines r (rows rs) s g e h = row line lines r rs s g e h
more-row k spec line lines r empty_spec s g e h = h
more-row k spec line lines r (short_line i n m l) s g e h = record {
  before = line ∷ h.before;
  after = h.after;
  found = r ∷ h.found;
  place = ap (◌∷◌ line) h.place;
  earlier = row line h.before r h.found s g e h.earlier;
  counted = omega (arith, h.counted);
  has = h.has;
  wants = h.wants;
  few = h.few;
  kept = h.kept;
}

rows_from-From :
    (f : Bytes) (fs : FormatSpec) (lines : List Bytes) (k : ℕ)
    → From k (f ∷ fs) lines (rows_from k (f ∷ fs) lines)
unfolding rows_from
rows_from-From f fs [] k = nothing
rows_from-From f fs (line ∷ lines) k =
    let vals = split field_sep line in
    let rest = rows_from-From f fs lines (suc k) in
    let blank_iff = bytes_eq_iff line [] in
    elim (Bool-cases (bytes_eq line [] && ltb 1 (length (f ∷ fs)))) [
      | inl blank ↦
          rw blank (more-skipped k (f ∷ fs) line lines _ (ground (arith, blank, blank_iff)) rest)
      | inr kept ↦ elim (Bool-cases (ltb (length vals) (length (f ∷ fs)))) [
        | inl short ↦
            rw (kept, short)
              (record {
                before = [];
                after = lines;
                found = [];
                place = refl;
                earlier = nothing;
                counted = omega arith;
                has = length-split line;
                wants = refl;
                few = ltb→lt (length vals) (length (f ∷ fs)) short;
                kept = λ s. ground (arith, kept, s, blank_iff);
              })
        | inr enough ↦
            rw (kept, enough)
              (more-row k (f ∷ fs) line lines _ _ (λ s. ground (arith, kept, s, blank_iff))
                (ground (arith, enough, length-split line))
                (folded-Spells f fs line (ground (arith, enough, length-split line))) rest)
      ]
    ]

From-start :
    (spec : FormatSpec) (lines : List Bytes) (p : Parsed)
    → spec ≢ []
    → From 0 spec lines p
    → Answers spec lines p
From-start spec lines (rows rs) n h = (n, h)
From-start spec lines empty_spec n h = absurd h
From-start spec lines (short_line i n m l) e h = h

-- Whatever the lines hold: with no columns ParseRows answers that the specification is empty. Else,
-- either every line but the skipped ones, which are blank and for more than one column, has a field
-- for each column or more, and the rows are these lines in order, each with a value for each
-- column, no tab in any but the last, and tabs between them spelling the line; or the answer names
-- the first line that has too few fields, with its number from 1, its fields and the columns.
pub parse_rows-Answers :
    (spec : FormatSpec) (lines : List Bytes) → Answers spec lines (parse_rows spec lines)
unfolding parse_rows
parse_rows-Answers [] lines = refl
parse_rows-Answers (f ∷ fs) lines =
    From-start (f ∷ fs) lines _ (ground arith) (rows_from-From f fs lines 0)
