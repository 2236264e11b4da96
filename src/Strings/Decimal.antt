-- ===== src/Strings/Decimal.antt =====
-- `strconv.Itoa` and the verb `%d`: an integer in decimal, and the round trip through `parse_int`.
use Prim.Native.Nat.{zero, suc, ◌/◌, ◌%◌, ◌<◌, ◌≤◌, ◌^◌, ◌*◌, ◌+◌}
use mathlib.Core.Logic.{dite}
use mathlib.Core.WellFounded.{Acc}
use native.Mathlib.Decide.{dec_lt}
use gotmucks.Base.{ℕ, ◌≡◌, ◌≢◌, refl, ap, ◌∙◌, arith, [], ◌∷◌, Bytes, some, All}
use gotmucks.Base.Int.{ℤ, pos, negsuc}
use gotmucks.Strings.Number.{digits_from, digits, parse_int, is_digit}

acc_below : (k n : ℕ) → n < k → Acc ◌<◌ n
acc_below zero n h = absurd (omega arith)
acc_below (suc k) n h = Acc.intro n λ m lt. acc_below k m (omega arith)

pub below_ten : (n : ℕ) → ¬ (n < 10) → n / 10 < n
below_ten n h = omega arith

-- The digits in front of those that are there already; a tenth of the number is left each time.
prepend : (n : ℕ) → Acc ◌<◌ n → Bytes → Bytes
prepend n (Acc.intro _ smaller) rest =
    dite (dec_lt n 10) (λ _. (b'0' + n) ∷ rest)
      (λ h. prepend (n / 10) (smaller (n / 10) (below_ten n h)) ((b'0' + n % 10) ∷ rest))

unfoldable pub show_ℕ : ℕ → Bytes
unfolding prepend acc_below
show_ℕ n = prepend n (acc_below (suc n) n (omega arith)) []

unfoldable pub itoa : ℤ → Bytes
unfolding show_ℕ
itoa (pos n) = show_ℕ n
itoa (negsuc n) = b'-' ∷ show_ℕ (suc n)

-- Reading a digit after a number is ten times the number and the digit.
digit_step :
    (d a : ℕ) (rest : Bytes)
    → d < 10
    → digits_from ((b'0' + d) ∷ rest) a ≡ digits_from rest (a * 10 + d)
unfolding digits_from is_digit
digit_step d a rest h = ground arith

digits_from-prepend :
    (n : ℕ) (w : Acc ◌<◌ n) (rest : Bytes) → digits_from (prepend n w rest) 0 ≡ digits_from rest n
unfolding prepend
digits_from-prepend n (Acc.intro _ smaller) rest =
    elim (dec_lt n 10)
      as (λ d.
        digits_from
          (dite d (λ _. (b'0' + n) ∷ rest)
            (λ h. prepend (n / 10) (smaller (n / 10) (below_ten n h)) ((b'0' + n % 10) ∷ rest)))
          0
        ≡ digits_from rest n) [
          | yes h ↦ digit_step n 0 rest h ∙ ap (digits_from rest) (omega arith)
          | no h ↦
              digits_from-prepend (n / 10) (smaller (n / 10) (below_ten n h))
                ((b'0' + n % 10) ∷ rest)
              ∙ digit_step (n % 10) (n / 10) rest (omega arith)
              ∙ ap (digits_from rest) (omega arith)
        ]

abbrev pub IsDigits : Bytes → Type 0
IsDigits = All (λ c. (b'0' ≤ c) × (c ≤ b'9'))

prepend-IsDigits :
    (n : ℕ) (w : Acc ◌<◌ n) (rest : Bytes) → IsDigits rest → IsDigits (prepend n w rest)
unfolding prepend
prepend-IsDigits n (Acc.intro _ smaller) rest k =
    elim (dec_lt n 10)
      as (λ d. IsDigits (
        dite d (λ _. (b'0' + n) ∷ rest)
          (λ h. prepend (n / 10) (smaller (n / 10) (below_ten n h)) ((b'0' + n % 10) ∷ rest)))) [
            | yes h ↦ (omega arith, k)
            | no h ↦
                prepend-IsDigits (n / 10) (smaller (n / 10) (below_ten n h))
                  ((b'0' + n % 10) ∷ rest) (omega arith, k)
          ]

prepend-ne-nil : (n : ℕ) (w : Acc ◌<◌ n) (rest : Bytes) → prepend n w rest ≢ []
unfolding prepend
prepend-ne-nil n (Acc.intro _ smaller) rest =
    elim (dec_lt n 10)
      as (λ d.
        dite d (λ _. (b'0' + n) ∷ rest)
          (λ h. prepend (n / 10) (smaller (n / 10) (below_ten n h)) ((b'0' + n % 10) ∷ rest))
        ≢ []) [
          | yes h ↦ ground arith
          | no h ↦
              prepend-ne-nil (n / 10) (smaller (n / 10) (below_ten n h)) ((b'0' + n % 10) ∷ rest)
        ]

pub show_ℕ-IsDigits : (n : ℕ) → IsDigits (show_ℕ n)
unfolding show_ℕ
show_ℕ-IsDigits n = prepend-IsDigits n (acc_below (suc n) n (omega arith)) [] tt

pub show_ℕ-ne-nil : (n : ℕ) → show_ℕ n ≢ []
unfolding show_ℕ
show_ℕ-ne-nil n = prepend-ne-nil n (acc_below (suc n) n (omega arith)) []

from_zero : (n : ℕ) → digits_from (show_ℕ n) 0 ≡ some n
unfolding show_ℕ
from_zero n =
    digits_from-prepend n (acc_below (suc n) n (omega arith)) [] ∙ unfold digits_from in refl

digits-nonempty : (s : Bytes) → s ≢ [] → digits s ≡ digits_from s 0
unfolding digits
digits-nonempty [] h = absurd (h refl)
digits-nonempty (c ∷ s) h = refl

-- Between -2^63 and 2^63 - 1.
abbrev pub IsInt64 : ℤ → Type 0
IsInt64 (pos n) = n < 2 ^ 63
IsInt64 (negsuc n) = n < 2 ^ 63

-- A text of digits has no sign.
parse_int-digits :
    (s : Bytes) (n : ℕ) → IsDigits s → digits s ≡ some n → n < 2 ^ 63 → parse_int s ≡ some (pos n)
unfolding parse_int digits
parse_int-digits [] n d e h = ground arith
parse_int-digits (c ∷ s) n d e h = ground arith

parse_int-minus :
    (s : Bytes) (n : ℕ)
    → digits s ≡ some (suc n)
    → n < 2 ^ 63
    → parse_int (b'-' ∷ s) ≡ some (negsuc n)
unfolding parse_int
parse_int-minus s n e h = rw e (ground arith)

digits-show_ℕ : (n : ℕ) → digits (show_ℕ n) ≡ some n
digits-show_ℕ n = digits-nonempty (show_ℕ n) (show_ℕ-ne-nil n) ∙ from_zero n

-- An integer of 64 bits is read back from its decimal form.
pub parse_int-itoa : (n : ℤ) → IsInt64 n → parse_int (itoa n) ≡ some n
unfolding itoa
parse_int-itoa (pos n) h = parse_int-digits (show_ℕ n) n (show_ℕ-IsDigits n) (digits-show_ℕ n) h
parse_int-itoa (negsuc n) h = parse_int-minus (show_ℕ (suc n)) n (digits-show_ℕ (suc n)) h
