-- ===== src/Ids/Laws.antt =====
-- The identifier tests of ids.go, against a description of an identifier.
use gotmucks.Base.{
  ℕ, true, ◌+◌, ◌-◌, ◌*◌, ◌^◌, ◌<◌, ◌≤◌, [], ◌∷◌, ◌≡◌, ◌≢◌, ◌↔◌, refl, arith, Bytes, All, some,
  none,
}
use gotmucks.Base.Int.{pos}
use gotmucks.Strings.{is_digit, parse_int, digits_from}
use gotmucks.Ids.{valid_id, all_digits}

abbrev pub IsDigit : ℕ → Type 0
IsDigit c = (b'0' ≤ c) × (c ≤ b'9')

-- A sigil and at least one digit.
abbrev pub IsId : ℕ → Bytes → Type 0
IsId sigil s = (ds : Bytes) × (s ≡ sigil ∷ ds) × (ds ≢ []) × All IsDigit ds

all_digits_sound : (s : Bytes) → all_digits s ≡ true → All IsDigit s
unfolding all_digits is_digit
all_digits_sound [] h = tt
all_digits_sound (c ∷ s) h = ground (arith, all_digits_sound s)

all_digits_complete : (s : Bytes) → All IsDigit s → all_digits s ≡ true
unfolding all_digits is_digit
all_digits_complete [] h = refl
all_digits_complete (c ∷ s) h = ground (arith, all_digits_complete s h.1)

valid_id_sound : (s : Bytes) (sigil : ℕ) → valid_id s sigil ≡ true → IsId sigil s
unfolding valid_id
valid_id_sound [] sigil h = absurd (cc h)
valid_id_sound (c ∷ []) sigil h = absurd (cc h)
valid_id_sound (c ∷ d ∷ s) sigil h =
    (d ∷ s, ground arith, ground arith, ground (arith, all_digits_sound (d ∷ s)))

valid_id_complete : (s : Bytes) (sigil : ℕ) → IsId sigil s → valid_id s sigil ≡ true
unfolding valid_id
valid_id_complete s sigil ([], e, n, h) = absurd (n refl)
valid_id_complete s sigil (d ∷ ds, e, n, h) = rw e (ground (arith, all_digits_complete (d ∷ ds) h))

-- An identifier is well formed exactly if it is the sigil and one decimal digit or more.
pub valid_id_iff : (s : Bytes) (sigil : ℕ) → (valid_id s sigil ≡ true) ↔ IsId sigil s
valid_id_iff s sigil = (valid_id_sound s sigil, valid_id_complete s sigil)

-- A text is a well-formed identifier for one sigil at most.
valid_id_unique : (s : Bytes) (a b : ℕ) → valid_id s a ≡ true → valid_id s b ≡ true → a ≡ b
unfolding valid_id
valid_id_unique [] a b h k = cc
valid_id_unique (c ∷ []) a b h k = cc
valid_id_unique (c ∷ d ∷ s) a b h k = ground arith

-- The number that digits spell behind `n`, with no bound.
abbrev pub value : ℕ → Bytes → ℕ
value n [] = n
value n (c ∷ s) = value (n * 10 + (c - b'0')) s

digits_from-value : (s : Bytes) (n : ℕ) → All IsDigit s → digits_from s n ≡ some (value n s)
unfolding digits_from
digits_from-value [] n h = refl
digits_from-value (c ∷ s) n h = ground (arith, digits_from-value s (n * 10 + (c - b'0')) h.1)

parse_int-value :
    (s : Bytes) → s ≢ [] → All IsDigit s → value 0 s < 2 ^ 63 → parse_int s ≡ some (pos (value 0 s))
unfolding parse_int
parse_int-value [] n h b = absurd (n refl)
parse_int-value (c ∷ s) n h b = ground (arith, digits_from-value (c ∷ s) 0 h)

parse_int_overflow : (s : Bytes) → s ≢ [] → All IsDigit s → 2 ^ 63 ≤ value 0 s → parse_int s ≡ none
unfolding parse_int
parse_int_overflow [] n h b = absurd (n refl)
parse_int_overflow (c ∷ s) n h b = ground (arith, digits_from-value (c ∷ s) 0 h)
