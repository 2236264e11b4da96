-- ===== src/TmuxOptions/Elements.antt =====
-- `splitArrayElement` of tmuxopts.go, against the form of an element's name.
use gotmucks.Base.{
  ℕ, true, ◌≢◌, ◌≡◌, ◌↔◌, refl, sym, ap, ◌∙◌, arith, [], ◌∷◌, ◌++◌, Bytes, Lacks, none, some,
  Option-cases, inl, inr, append_assoc, bytes_eq,
}
use gotmucks.Strings.{has_suffix, trim_suffix, is_digit}
use gotmucks.Ids.{all_digits}
use gotmucks.TmuxOptions.{cut_last, split_array_element, indexed}

-- A name, and in brackets a decimal index of one digit or more.
pub record Element (base printed : Bytes) : Type 0 where
  pub index : Bytes
  pub named : base ≢ []
  pub counted : index ≢ []
  pub decimal : all_digits index ≡ true
  pub form : printed ≡ base ++ b'[' ∷ (index ++ b']' ∷ [])

cut_last-none : (b : ℕ) (s : Bytes) → Lacks b s → cut_last b s ≡ none
unfolding cut_last
cut_last-none b [] h = refl
cut_last-none b (c ∷ s) h = ground (arith, cut_last-none b s h.1)

cut_last-append : (b : ℕ) (s t : Bytes) → Lacks b t → cut_last b (s ++ b ∷ t) ≡ some (s, t)
unfolding cut_last
cut_last-append b [] t h = rw (cut_last-none b t h) (ground arith)
cut_last-append b (c ∷ s) t h = rw (cut_last-append b s t h) refl

cut_last-some : (b : ℕ) (s x y : Bytes) → cut_last b s ≡ some (x, y) → s ≡ x ++ b ∷ y
unfolding cut_last
cut_last-some b [] x y h = ground arith
cut_last-some b (c ∷ s) x y h = elim (Option-cases (cut_last b s)) [
  | inl e ↦ ground arith
  | inr ((u, w), e) ↦ ground (arith, cut_last-some b s u w e)
]

trim-append : (b : ℕ) (s : Bytes) → trim_suffix (b ∷ []) (s ++ b ∷ []) ≡ s
unfolding trim_suffix bytes_eq
trim-append b [] = ground arith
trim-append b (c ∷ []) = ground arith
trim-append b (c ∷ d ∷ s) = rw (trim-append b (d ∷ s)) (ground arith)

has-append : (b : ℕ) (s : Bytes) → has_suffix (b ∷ []) (s ++ b ∷ []) ≡ true
unfolding has_suffix bytes_eq
has-append b [] = ground arith
has-append b (c ∷ s) = ground (arith, has-append b s)

has-trim : (b : ℕ) (s : Bytes) → has_suffix (b ∷ []) s ≡ true → s ≡ trim_suffix (b ∷ []) s ++ b ∷ []
unfolding has_suffix trim_suffix bytes_eq
has-trim b [] h = ground arith
has-trim b (c ∷ []) h = ground arith
has-trim b (c ∷ d ∷ s) h = ground (arith, has-trim b (d ∷ s))

has-behind :
    (b a : ℕ) (x y : Bytes)
    → a ≢ b
    → has_suffix (b ∷ []) (x ++ a ∷ y) ≡ true
    → has_suffix (b ∷ []) y ≡ true
unfolding has_suffix bytes_eq
has-behind b a [] [] n h = ground arith
has-behind b a [] (d ∷ y) n h = ground arith
has-behind b a (c ∷ []) y n h = ground (arith, has-behind b a [] y n)
has-behind b a (c ∷ d ∷ x) y n h = ground (arith, has-behind b a (d ∷ x) y n)

index-Lacks : (s : Bytes) → all_digits s ≡ true → Lacks b'[' (s ++ b']' ∷ [])
unfolding all_digits is_digit
index-Lacks [] h = ground arith
index-Lacks (c ∷ s) h = ground (arith, index-Lacks s)

indexed-form :
    (printed base index : Bytes)
    → has_suffix (b']' ∷ []) printed ≡ true
    → base ≢ []
    → index ≢ []
    → all_digits index ≡ true
    → indexed printed base (index ++ b']' ∷ []) ≡ (base, true)
unfolding indexed
indexed-form printed [] index s n m h = absurd (n refl)
indexed-form printed (c ∷ base) [] s n m h = absurd (m refl)
indexed-form printed (c ∷ base) (d ∷ index) s n m h =
    let e = trim-append b']' (d ∷ index) in rw (s, e) (ground (arith, h))

suffix-form :
    (base index : Bytes) → has_suffix (b']' ∷ []) (base ++ b'[' ∷ (index ++ b']' ∷ [])) ≡ true
suffix-form base index =
    ap (has_suffix (b']' ∷ [])) (sym (append_assoc base (b'[' ∷ index) (b']' ∷ [])))
    ∙ has-append b']' (base ++ b'[' ∷ index)

split-Element :
    (printed base : Bytes) → Element base printed → split_array_element printed ≡ (base, true)
unfolding split_array_element
split-Element printed base e =
    let c =
      ap (cut_last b'[') e.form
      ∙ cut_last-append b'[' base (e.index ++ b']' ∷ []) (index-Lacks e.index e.decimal) in
    let suffix = ap (has_suffix (b']' ∷ [])) e.form ∙ suffix-form base e.index in
    rw (split_array_element, c)
      (indexed-form printed base e.index suffix e.named e.counted e.decimal)

indexed-found :
    (printed base b rest : Bytes)
    → indexed printed b rest ≡ (base, true)
    → (b ≡ base)
      × (base ≢ [])
      × (has_suffix (b']' ∷ []) printed ≡ true)
      × (trim_suffix (b']' ∷ []) rest ≢ [])
      × (all_digits (trim_suffix (b']' ∷ []) rest) ≡ true)
unfolding indexed
indexed-found printed base [] rest h = ground arith
indexed-found printed base (c ∷ b) rest h = ground arith

Element-indexed :
    (printed base b rest : Bytes)
    → printed ≡ b ++ b'[' ∷ rest
    → (b ≡ base)
      × (base ≢ [])
      × (has_suffix (b']' ∷ []) printed ≡ true)
      × (trim_suffix (b']' ∷ []) rest ≢ [])
      × (all_digits (trim_suffix (b']' ∷ []) rest) ≡ true)
    → Element base printed
Element-indexed printed base b rest e h =
    let s = has-behind b']' b'[' b rest (omega arith) (ap (has_suffix (b']' ∷ [])) (sym e) ∙ h.2) in
    record {
      index = trim_suffix (b']' ∷ []) rest;
      named = h.1;
      counted = h.3;
      decimal = h.4;
      form = e ∙ ap (λ t. t ++ b'[' ∷ rest) h.0 ∙ ap (λ t. base ++ b'[' ∷ t) (has-trim b']' rest s);
    }

Element-split :
    (printed base : Bytes) → split_array_element printed ≡ (base, true) → Element base printed
unfolding split_array_element
Element-split printed base h = elim (Option-cases (cut_last b'[' printed)) [
  | inl e ↦ absurd (ground arith)
  | inr ((b, rest), e) ↦
      Element-indexed printed base b rest (cut_last-some b'[' printed b rest e)
        (indexed-found printed base b rest (ground arith))
]

-- A printed name is split into a name and an index exactly if it is that name, which is not empty,
-- with a decimal index of one digit or more in brackets behind it.
pub split_array_element_iff :
    (printed base : Bytes) → (split_array_element printed ≡ (base, true)) ↔ Element base printed
split_array_element_iff printed base = (Element-split printed base, split-Element printed base)
