-- ===== src/Version/Order.antt =====
-- `Compare` of version.go as an order.
use gotmucks.Base.{
  Bool, true, false, ◌^◌, ◌<◌, [], ◌∷◌, ◌≡◌, refl, sym, ap, ◌∙◌, ◌&&◌, arith, Bytes, if◌then◌else◌,
}
use gotmucks.Base.Int.{ℤ, pos, negsuc, pos_part, neg_part, ltb_ℤ, int64, sub_ℤ}
use gotmucks.Version.{
  Version, sign, compare_bytes, compare_suffix, compare_next, compare_numbers, compare,
}

-- A number far from the ends of its range, so that differences do not wrap around.
abbrev pub IsNarrow : ℤ → Type 0
IsNarrow n = (pos_part n < 2 ^ 62) × (neg_part n < 2 ^ 62)

pub record HasNarrow (v : Version) : Type 0 where
  pub major : IsNarrow v.major
  pub minor : IsNarrow v.minor

abbrev pub negate : ℤ → ℤ
negate n = sub_ℤ (pos 0) n

-- The sign of a difference, where it does not wrap around.
sign-difference :
    (a b : ℤ)
    → IsNarrow a
    → IsNarrow b
    → sign (int64 (sub_ℤ a b))
      ≡ (if ltb_ℤ a b then negsuc 0 else if ltb_ℤ b a then pos 1 else pos 0)
unfolding sign int64
sign-difference (pos m) (pos n) h k = ground arith
sign-difference (pos m) (negsuc n) h k = ground arith
sign-difference (negsuc m) (pos n) h k = ground arith
sign-difference (negsuc m) (negsuc n) h k = ground arith

compare_bytes-negate : (s t : Bytes) → compare_bytes t s ≡ negate (compare_bytes s t)
unfolding compare_bytes
compare_bytes-negate [] [] = refl
compare_bytes-negate [] (d ∷ t) = refl
compare_bytes-negate (c ∷ s) [] = refl
compare_bytes-negate (c ∷ s) (d ∷ t) = ground (arith, compare_bytes-negate s t)

compare_suffix-negate : (v w : Version) → compare_suffix w v ≡ negate (compare_suffix v w)
unfolding compare_suffix
compare_suffix-negate v w = ground (arith, compare_bytes-negate v.suffix w.suffix)

compare_next-negate : (v w : Version) → compare_next w v ≡ negate (compare_next v w)
unfolding compare_next
compare_next-negate v w = ground (arith, compare_suffix-negate v w)

compare_numbers-negate :
    (v w : Version) → HasNarrow v → HasNarrow w → compare_numbers w v ≡ negate (compare_numbers v w)
unfolding compare_numbers
compare_numbers-negate v w h k =
    rw
      (
        sign-difference v.major w.major h.major k.major,
        sign-difference w.major v.major k.major h.major,
        sign-difference v.minor w.minor h.minor k.minor,
        sign-difference w.minor v.minor k.minor h.minor,
      )
      (ground (arith, compare_next-negate v w))

-- `compare` on whether the versions are unknown, and the result for known ones.
by_unknown : Bool → Bool → ℤ → ℤ
by_unknown p q n = if p && q then pos 0 else if p then pos 1 else if q then negsuc 0 else n

by_unknown-compare :
    (v w : Version) → compare v w ≡ by_unknown v.unknown w.unknown (compare_numbers v w)
unfolding compare by_unknown
by_unknown-compare v w = refl

by_unknown-negate : (p q : Bool) (n : ℤ) → by_unknown q p (negate n) ≡ negate (by_unknown p q n)
unfolding by_unknown
by_unknown-negate true true n = refl
by_unknown-negate true false n = refl
by_unknown-negate false true n = refl
by_unknown-negate false false n = refl

-- For versions whose numbers lie within 2^62 of zero, comparing them the other way round gives the
-- opposite result.
compare-negate : (v w : Version) → HasNarrow v → HasNarrow w → compare w v ≡ negate (compare v w)
compare-negate v w h k =
    by_unknown-compare w v
    ∙ ap (by_unknown w.unknown v.unknown) (compare_numbers-negate v w h k)
    ∙ by_unknown-negate v.unknown w.unknown (compare_numbers v w)
    ∙ ap negate (sym (by_unknown-compare v w))

-- A result that is not "newer".
abbrev pub IsUpTo : ℤ → Type 0
IsUpTo n = ltb_ℤ (pos 0) n ≡ false

compare_bytes_trans :
    (s t u : Bytes)
    → IsUpTo (compare_bytes s t)
    → IsUpTo (compare_bytes t u)
    → IsUpTo (compare_bytes s u)
unfolding compare_bytes
compare_bytes_trans [] t [] h k = refl
compare_bytes_trans [] t (e ∷ u) h k = refl
compare_bytes_trans (c ∷ s) [] u h k = ground arith
compare_bytes_trans (c ∷ s) (d ∷ t) [] h k = ground arith
compare_bytes_trans (c ∷ s) (d ∷ t) (e ∷ u) h k = ground (arith, compare_bytes_trans s t u)

compare_suffix_trans :
    (u v w : Version)
    → IsUpTo (compare_suffix u v)
    → IsUpTo (compare_suffix v w)
    → IsUpTo (compare_suffix u w)
unfolding compare_suffix
compare_suffix_trans u v w h k = ground (arith, compare_bytes_trans u.suffix v.suffix w.suffix)

compare_next_trans :
    (u v w : Version)
    → IsUpTo (compare_next u v)
    → IsUpTo (compare_next v w)
    → IsUpTo (compare_next u w)
unfolding compare_next
compare_next_trans u v w h k = ground (arith, compare_suffix_trans u v w)

-- The comparison of two numbers, then of what comes after them.
by_number : ℤ → ℤ → ℤ → ℤ
by_number a b n = if ltb_ℤ a b then negsuc 0 else if ltb_ℤ b a then pos 1 else n

by_number_trans :
    (a b c l m n : ℤ)
    → (IsUpTo l → IsUpTo m → IsUpTo n)
    → IsUpTo (by_number a b l)
    → IsUpTo (by_number b c m)
    → IsUpTo (by_number a c n)
unfolding by_number
by_number_trans a b c l m n f h k = ground arith

-- What `compare_numbers` does with numbers that are narrow.
by_number-compare :
    (v w : Version)
    → HasNarrow v
    → HasNarrow w
    → compare_numbers v w ≡ by_number v.major w.major (by_number v.minor w.minor (compare_next v w))
unfolding compare_numbers by_number
by_number-compare v w h k =
    rw
      (
        sign-difference v.major w.major h.major k.major,
        sign-difference v.minor w.minor h.minor k.minor,
      )
      (ground arith)

compare_numbers_trans :
    (u v w : Version)
    → HasNarrow u
    → HasNarrow v
    → HasNarrow w
    → IsUpTo (compare_numbers u v)
    → IsUpTo (compare_numbers v w)
    → IsUpTo (compare_numbers u w)
compare_numbers_trans u v w a b c h k = rw (by_number-compare u w a c) (
    by_number_trans u.major v.major w.major _ _ _
      (by_number_trans u.minor v.minor w.minor _ _ _ (compare_next_trans u v w))
      (rw (by_number-compare u v a b) at h) (rw (by_number-compare v w b c) at k))

by_unknown_trans :
    (p q r : Bool) (l m n : ℤ)
    → (IsUpTo l → IsUpTo m → IsUpTo n)
    → IsUpTo (by_unknown p q l)
    → IsUpTo (by_unknown q r m)
    → IsUpTo (by_unknown p r n)
unfolding by_unknown
by_unknown_trans true true true l m n f h k = refl
by_unknown_trans true true false l m n f h k = k
by_unknown_trans true false r l m n f h k = absurd (ground arith)
by_unknown_trans false q true l m n f h k = refl
by_unknown_trans false true false l m n f h k = absurd (ground arith)
by_unknown_trans false false false l m n f h k = f h k

-- For versions whose numbers lie within 2^62 of zero, one that is no newer than a second, which is
-- no newer than a third, is no newer than the third.
pub compare_trans :
    (u v w : Version)
    → HasNarrow u
    → HasNarrow v
    → HasNarrow w
    → IsUpTo (compare u v)
    → IsUpTo (compare v w)
    → IsUpTo (compare u w)
compare_trans u v w a b c h k = rw (by_unknown-compare u w) (
    by_unknown_trans u.unknown v.unknown w.unknown _ _ _ (compare_numbers_trans u v w a b c)
      (rw (by_unknown-compare u v) at h) (rw (by_unknown-compare v w) at k))
