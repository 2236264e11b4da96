-- ===== src/Format/Fields.antt =====
-- format.go: a row's fields read back from what tmux prints for numbers, times and identifiers.
use gotmucks.Base.{ℕ, true, ◌≤◌, ◌≢◌, ◌≡◌, refl, arith, [], ◌∷◌, Bytes, All, some}
use gotmucks.Base.Int.{ℤ, pos, negsuc}
use gotmucks.Strings.{parse_int}
use gotmucks.Strings.Decimal.{
  itoa, IsInt64, parse_int-itoa, show_ℕ-ne-nil, show_ℕ-IsDigits, IsDigits,
}
use gotmucks.Ids.{valid_id, session_sigil, parse_id, check_id, SessionId, session, ok}
use gotmucks.Format.{Row, lookup}
use gotmucks.Format.Access.{value, row_int, row_time, row_session_id}

itoa-ne-nil : (n : ℤ) → itoa n ≢ []
unfolding itoa
itoa-ne-nil (pos n) = show_ℕ-ne-nil n
itoa-ne-nil (negsuc n) = ground arith

digits-visible : (s : Bytes) → IsDigits s → All (λ c. b' ' ≤ c) s
digits-visible [] h = tt
digits-visible (c ∷ s) h = (omega arith, digits-visible s h.1)

pub itoa-visible : (n : ℤ) → All (λ c. b' ' ≤ c) (itoa n)
unfolding itoa
itoa-visible (pos n) = digits-visible _ (show_ℕ-IsDigits n)
itoa-visible (negsuc n) = (omega arith, digits-visible _ (show_ℕ-IsDigits (ℕ.suc n)))

int_found :
    (r : Row) (name v : Bytes) (n : ℤ)
    → lookup r name ≡ some v
    → v ≢ []
    → parse_int v ≡ some n
    → row_int r name ≡ value n
unfolding row_int
int_found r name [] n h m e = absurd (m refl)
int_found r name (c ∷ v) n h m e = rw (h, e) refl

pub row_int-itoa :
    (r : Row) (name : Bytes) (n : ℤ)
    → lookup r name ≡ some (itoa n)
    → IsInt64 n
    → row_int r name ≡ value n
row_int-itoa r name n h b = int_found r name (itoa n) n h (itoa-ne-nil n) (parse_int-itoa n b)

time_found :
    (r : Row) (name v : Bytes) (n : ℤ)
    → lookup r name ≡ some v
    → v ≢ []
    → parse_int v ≡ some n
    → row_time r name ≡ value (some n)
unfolding row_time
time_found r name [] n h m e = absurd (m refl)
time_found r name (c ∷ v) n h m e = ground (arith, h, e)

pub row_time-itoa :
    (r : Row) (name : Bytes) (n : ℤ)
    → lookup r name ≡ some (itoa n)
    → IsInt64 n
    → row_time r name ≡ value (some n)
row_time-itoa r name n h b = time_found r name (itoa n) n h (itoa-ne-nil n) (parse_int-itoa n b)

parse_id_valid :
    (id : SessionId) → valid_id id session_sigil ≡ true → parse_id id session_sigil session ≡ ok id
unfolding parse_id check_id
parse_id_valid id v = ground (arith, v)

pub row_session_id_valid :
    (r : Row) (name : Bytes) (id : SessionId)
    → lookup r name ≡ some id
    → valid_id id session_sigil ≡ true
    → row_session_id r name ≡ value id
unfolding row_session_id
row_session_id_valid r name id h v = rw (h, parse_id_valid id v) refl
