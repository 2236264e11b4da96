-- ===== src/Strings/Cut.antt =====
-- `strings.Cut`, `Split`, `Join`, `HasPrefix`, `TrimSuffix` and their laws.
use gotmucks.Base.{
  ℕ, Bool, true, false, ◌&&◌, ◌||◌, List, [], ◌∷◌, ◌++◌, ◌≡◌, ◌≢◌, refl, ap, ◌∙◌, arith, Bytes,
  Lacks, All, ◌==◌, if◌then◌else◌, bytes_eq, drop, length, Bool-cases, inl, inr, contains_byte,
  Option, none, some,
}

-- The results of `strings.Cut`.
pub record Pieces : Type 0 where
  pub before : Bytes
  pub after : Bytes
  pub found : Bool

-- `strings.Cut(s, sep)` for a separator of one byte.
unfoldable pub cut : ℕ → Bytes → Pieces
cut sep [] = record { before = []; after = []; found = false }
cut sep (c ∷ s) =
    let rest = cut sep s in
    if c == sep
    then record { before = []; after = s; found = true }
    else record rest { before = c ∷ rest.before }

unfoldable pub has_prefix : Bytes → Bytes → Bool
has_prefix [] s = true
has_prefix (p ∷ ps) [] = false
has_prefix (p ∷ ps) (c ∷ s) = c == p && has_prefix ps s

-- `strings.Cut(s, sep)` for a separator of several bytes.
unfoldable pub cut_text : Bytes → Bytes → Pieces
unfolding has_prefix
cut_text sep [] = record { before = []; after = []; found = false }
cut_text sep (c ∷ s) =
    let rest = cut_text sep s in
    if has_prefix sep (c ∷ s)
    then record { before = []; after = drop (length sep) (c ∷ s); found = true }
    else record rest { before = c ∷ rest.before }

-- `strings.CutPrefix(s, prefix)`; `none` where the text does not begin with it.
unfoldable pub cut_prefix : Bytes → Bytes → Option Bytes
unfolding has_prefix
cut_prefix p s = if has_prefix p s then some (drop (length p) s) else none

unfoldable pub trim_prefix : Bytes → Bytes → Bytes
unfolding has_prefix
trim_prefix p s = if has_prefix p s then drop (length p) s else s

unfoldable pub has_suffix : Bytes → Bytes → Bool
unfolding bytes_eq
has_suffix p [] = bytes_eq [] p
has_suffix p (c ∷ s) = bytes_eq (c ∷ s) p || has_suffix p s

unfoldable pub trim_suffix : Bytes → Bytes → Bytes
unfolding bytes_eq
trim_suffix p [] = []
trim_suffix p (c ∷ s) = let rest = trim_suffix p s in if bytes_eq (c ∷ s) p then [] else c ∷ rest

-- Puts a byte in front of the first part.
abbrev pub onto_head : ℕ → List Bytes → List Bytes
onto_head c [] = (c ∷ []) ∷ []
onto_head c (p ∷ ps) = (c ∷ p) ∷ ps

-- `strings.Split(s, sep)` for a separator of one byte: never empty.
unfoldable pub split : ℕ → Bytes → List Bytes
split sep [] = [] ∷ []
split sep (c ∷ s) = let rest = split sep s in if c == sep then [] ∷ rest else onto_head c rest

-- `strings.Join(parts, sep)`.
unfoldable pub join : Bytes → List Bytes → Bytes
join sep [] = []
join sep (p ∷ []) = p
join sep (p ∷ q ∷ ps) = p ++ (sep ++ join sep (q ∷ ps))

-- The index of the first byte that is in the set: `strings.IndexAny` for ASCII sets.
unfoldable pub index_any : Bytes → Bytes → Option ℕ
unfolding contains_byte
index_any [] set_bytes = none
index_any (c ∷ s) set_bytes =
    let rest = index_any s set_bytes in
    if contains_byte c set_bytes
    then some 0
    else elim rest [ none ↦ none | some i ↦ some (ℕ.suc i) ]

-- Cutting undoes the insertion of a separator after a text that lacks it.
pub cut-append :
    (sep : ℕ) (a b : Bytes)
    → Lacks sep a
    → cut sep (a ++ sep ∷ b) ≡ record { before = a; after = b; found = true }
unfolding cut
cut-append sep [] b h = ground arith
cut-append sep (c ∷ a) b h = ground (arith, cut-append sep a b h.1)

-- Where a cut finds the separator, the parts spell the text.
pub cut-found :
    (sep : ℕ) (s : Bytes)
    → (cut sep s).found ≡ true
    → s ≡ (cut sep s).before ++ sep ∷ (cut sep s).after
unfolding cut
cut-found sep [] h = cc
cut-found sep (c ∷ s) h = ground (arith, cut-found sep s)

pub cut-Lacks : (sep : ℕ) (s : Bytes) → Lacks sep (cut sep s).before
unfolding cut
cut-Lacks sep [] = tt
cut-Lacks sep (c ∷ s) = ground (arith, cut-Lacks sep s)

-- A text without the separator is its own first part.
pub cut_none :
    (sep : ℕ) (s : Bytes)
    → Lacks sep s
    → cut sep s ≡ record { before = s; after = []; found = false }
unfolding cut
cut_none sep [] h = refl
cut_none sep (c ∷ s) h = ground (arith, cut_none sep s h.1)

pub split-ne-nil : (sep : ℕ) (s : Bytes) → split sep s ≢ []
unfolding split
split-ne-nil sep [] = ground arith
split-ne-nil sep (c ∷ s) = ground (arith, split-ne-nil sep s)

onto_head-join :
    (sep : Bytes) (c : ℕ) (ps : List Bytes) → ps ≢ [] → join sep (onto_head c ps) ≡ c ∷ join sep ps
unfolding join
onto_head-join sep c [] h = absurd (h refl)
onto_head-join sep c (p ∷ []) h = refl
onto_head-join sep c (p ∷ q ∷ ps) h = refl

join-nil-cons : (sep : Bytes) (ps : List Bytes) → ps ≢ [] → join sep ([] ∷ ps) ≡ sep ++ join sep ps
unfolding join
join-nil-cons sep [] h = absurd (h refl)
join-nil-cons sep (p ∷ ps) h = refl

pub join-split : (sep : ℕ) (s : Bytes) → join (sep ∷ []) (split sep s) ≡ s
unfolding split
join-split sep [] = unfold join in refl
join-split sep (c ∷ s) = elim (Bool-cases (c == sep)) [
  | inl e ↦ rw (e, join-nil-cons (sep ∷ []) _ (split-ne-nil sep s), join-split sep s) (ground arith)
  | inr e ↦ rw (e, onto_head-join (sep ∷ []) c _ (split-ne-nil sep s), join-split sep s)
]

pub split-append :
    (sep : ℕ) (p s : Bytes) → Lacks sep p → split sep (p ++ sep ∷ s) ≡ p ∷ split sep s
unfolding split
split-append sep [] s h = ground arith
split-append sep (c ∷ p) s h = ground (arith, split-append sep p s h.1)

pub split_none : (sep : ℕ) (p : Bytes) → Lacks sep p → split sep p ≡ p ∷ []
unfolding split
split_none sep [] h = refl
split_none sep (c ∷ p) h = ground (arith, split_none sep p h.1)

pub split-join :
    (sep : ℕ) (ps : List Bytes) → ps ≢ [] → All (Lacks sep) ps → split sep (join (sep ∷ []) ps) ≡ ps
unfolding join
split-join sep [] n h = absurd (n refl)
split-join sep (p ∷ []) n h = split_none sep p h.0
split-join sep (p ∷ q ∷ ps) n h =
    split-append sep p _ h.0 ∙ ap (◌∷◌ p) (split-join sep (q ∷ ps) (ground arith) h.1)
