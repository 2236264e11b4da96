-- ===== src/Strings/Number.antt =====
-- `strconv.Atoi` and `strconv.ParseInt(s, 10, 64)`, which agree where `int` has 64 bits; the error
-- says nothing that the source uses, so it is `none`.
use gotmucks.Base.{
  ℕ, Bool, ◌&&◌, ◌+◌, ◌-◌, ◌*◌, ◌^◌, [], ◌∷◌, Bytes, ◌==◌, leb, ltb, if◌then◌else◌, Option, none,
  some, ◌>>=◌,
}
use gotmucks.Base.Int.{ℤ, pos, sub_ℕ}

unfoldable pub is_digit : ℕ → Bool
is_digit c = leb b'0' c && leb c b'9'

unfoldable pub digits_from : Bytes → ℕ → Option ℕ
unfolding is_digit
digits_from [] n = some n
digits_from (c ∷ s) n =
    let rest = digits_from s (n * 10 + (c - b'0')) in if is_digit c then rest else none

-- One digit or more.
unfoldable pub digits : Bytes → Option ℕ
unfolding digits_from
digits [] = none
digits (c ∷ s) = digits_from (c ∷ s) 0

unfoldable pub parse_int : Bytes → Option ℤ
unfolding digits
parse_int [] = none
parse_int (c ∷ s) =
    if c == b'-'
    then (do n ← digits s; if leb n (2 ^ 63) then some (sub_ℕ 0 n) else none)
    else if c == b'+'
    then (do n ← digits s; if ltb n (2 ^ 63) then some (pos n) else none)
    else (do n ← digits (c ∷ s); if ltb n (2 ^ 63) then some (pos n) else none)
