-- ===== src/Control/Process/Stderr.antt =====
-- control.go: the part of the process's standard error that is kept. The count of the bytes that are
-- not is an int, whose bits it is here.
use gotmucks.Base.{
  ℕ, zero, suc, ◌+◌, ◌-◌, ◌%◌, ◌^◌, ◌<◌, ◌≤◌, ◌≡◌, refl, sym, ap, subst, ◌∙◌, arith, false,
  Bool-cases, inl, inr, List, [], ◌∷◌, ◌++◌, Bytes, codes, ◌==◌, ltb, leb, leb→le, ltb→lt, length,
  length-append, take, if◌then◌else◌, append-nil, append_assoc,
}
use gotmucks.Base.Int.{pos, int64}
use gotmucks.Strings.Decimal.{itoa}

abbrev pub max_stderr : ℕ
max_stderr = 65536

pub record SyncBuffer : Type 0 where
  pub kept : Bytes
  pub dropped : ℕ

abbrev pub empty_buffer : SyncBuffer
empty_buffer = record { kept = []; dropped = 0 }

abbrev wrap64 : ℕ → ℕ
wrap64 n = n % 2 ^ 64

-- `Write`; it always reports that all was written.
unfoldable pub write : SyncBuffer → Bytes → SyncBuffer
write b p =
    let room = max_stderr - length b.kept in
    if leb max_stderr (length b.kept)
    then record b { dropped = wrap64 (b.dropped + length p) }
    else if ltb room (length p)
    then record { kept = b.kept ++ take room p; dropped = wrap64 (b.dropped + (length p - room)) }
    else record b { kept = b.kept ++ p }

-- `String`.
unfoldable pub stderr_text : SyncBuffer → Bytes
unfolding itoa int64
stderr_text b =
    if b.dropped == 0
    then b.kept
    else b.kept
      ++ (b'\n' ∷ b'[' ∷ itoa (int64 (pos b.dropped)))
      ++ codes " further bytes of tmux stderr discarded]"

unfoldable pub write_all : SyncBuffer → List Bytes → SyncBuffer
unfolding write
write_all b [] = b
write_all b (p ∷ ps) = write_all (write b p) ps

abbrev pub concat : List Bytes → Bytes
concat [] = []
concat (p ∷ ps) = p ++ concat ps

-- Of what was written, the buffer has the part that fits, and the rest is counted.
pub record Holds (all : Bytes) (b : SyncBuffer) : Type 0 where
  pub prefix : b.kept ≡ take max_stderr all
  pub counted : b.dropped ≡ length all - max_stderr

take-append_short :
    (n : ℕ) (xs ys : Bytes) → length xs ≤ n → take n (xs ++ ys) ≡ xs ++ take (n - length xs) ys
take-append_short n [] ys h = ap (λ k. take k ys) (omega arith)
take-append_short zero (x ∷ xs) ys h = absurd (omega arith)
take-append_short (suc n) (x ∷ xs) ys h =
    ap (◌∷◌ x) (take-append_short n xs ys (omega arith) ∙ ap (λ k. xs ++ take k ys) (omega arith))

take_all : (n : ℕ) (xs : Bytes) → length xs ≤ n → take n xs ≡ xs
take_all zero [] h = refl
take_all (suc n) [] h = refl
take_all zero (x ∷ xs) h = absurd (omega arith)
take_all (suc n) (x ∷ xs) h = ap (◌∷◌ x) (take_all n xs (omega arith))

length-take_min : (n : ℕ) (xs : Bytes) → n ≤ length xs → length (take n xs) ≡ n
length-take_min zero xs h = refl
length-take_min (suc n) [] h = absurd (omega arith)
length-take_min (suc n) (x ∷ xs) h = omega (arith, length-take_min n xs)

take-append_long : (n : ℕ) (xs ys : Bytes) → n ≤ length xs → take n (xs ++ ys) ≡ take n xs
take-append_long zero xs ys h = refl
take-append_long (suc n) [] ys h = absurd (omega arith)
take-append_long (suc n) (x ∷ xs) ys h = ap (◌∷◌ x) (take-append_long n xs ys (omega arith))

not_over : (m n : ℕ) → ltb m n ≡ false → n ≤ m
not_over m n h = ground arith

not_le : (m n : ℕ) → leb m n ≡ false → n < m
not_le m n h = ground arith

front : (xs ys : Bytes) → length (xs ++ ys) < 2 ^ 64 → length xs < 2 ^ 64
front xs ys h = omega (arith, length-append xs ys)

-- A buffer that is full drops all of a write.
write_full :
    (b : SyncBuffer) (p : Bytes)
    → max_stderr ≤ length b.kept
    → write b p ≡ record b { dropped = wrap64 (b.dropped + length p) }
unfolding write
write_full b p h = ground arith

write_part :
    (b : SyncBuffer) (p : Bytes)
    → length b.kept < max_stderr
    → max_stderr - length b.kept < length p
    → write b p ≡ record {
      kept = b.kept ++ take (max_stderr - length b.kept) p;
      dropped = wrap64 (b.dropped + (length p - (max_stderr - length b.kept)));
    }
unfolding write
write_part b p h k = ground arith

write_whole :
    (b : SyncBuffer) (p : Bytes)
    → length b.kept < max_stderr
    → length p ≤ max_stderr - length b.kept
    → write b p ≡ record b { kept = b.kept ++ p }
unfolding write
write_whole b p h k = ground arith

Holds-full :
    (all p : Bytes) (b : SyncBuffer)
    → Holds all b
    → length (all ++ p) < 2 ^ 64
    → max_stderr ≤ length all
    → Holds (all ++ p) (write b p)
Holds-full all p b h s big =
    let n = ap length h.prefix ∙ length-take_min max_stderr all big in
    rw (write_full b p (omega (arith, n))) (record {
      prefix = h.prefix ∙ sym (take-append_long max_stderr all p big);
      counted = omega (arith, h.counted, length-append all p, s);
    })

Holds-room :
    (all p : Bytes) (b : SyncBuffer)
    → Holds all b
    → length (all ++ p) < 2 ^ 64
    → length all < max_stderr
    → Holds (all ++ p) (write b p)
Holds-room all p b h s small =
    let same = h.prefix ∙ take_all max_stderr all (omega arith) in
    let n = ap length same in
    let lost = length-append all p in
    elim (Bool-cases (ltb (max_stderr - length all) (length p))) [
      | inl over ↦
          rw (write_part b p (omega (arith, n)) (omega (arith, n, ltb→lt _ _ over))) (record {
            prefix =
                ap (λ k. k ++ take (max_stderr - length k) p) same
                ∙ sym (take-append_short max_stderr all p (omega arith));
            counted = omega (arith, h.counted, n, lost, s, ltb→lt _ _ over);
          })
      | inr fits ↦
          rw (write_whole b p (omega (arith, n)) (omega (arith, n, not_over _ _ fits))) (record {
            prefix =
                ap (λ k. k ++ p) same
                ∙ sym (take_all max_stderr (all ++ p) (omega (arith, lost, not_over _ _ fits)));
            counted = omega (arith, h.counted, lost, not_over _ _ fits);
          })
    ]

Holds-write :
    (all p : Bytes) (b : SyncBuffer)
    → Holds all b
    → length (all ++ p) < 2 ^ 64
    → Holds (all ++ p) (write b p)
Holds-write all p b h s = elim (Bool-cases (leb max_stderr (length all))) [
  | inl big ↦ Holds-full all p b h s (leb→le _ _ big)
  | inr small ↦ Holds-room all p b h s (not_le _ _ small)
]

Holds-write_all :
    (ps : List Bytes) (all : Bytes) (b : SyncBuffer)
    → Holds all b
    → length (all ++ concat ps) < 2 ^ 64
    → Holds (all ++ concat ps) (write_all b ps)
unfolding write_all
Holds-write_all [] all b h s = subst (λ l. Holds l b) (sym (append-nil all)) h
Holds-write_all (p ∷ ps) all b h s =
    let moved = append_assoc all p (concat ps) in
    let s' = subst (λ l. length l < 2 ^ 64) (sym moved) s in
    subst (λ l. Holds l (write_all (write b p) ps)) moved
      (Holds-write_all ps (all ++ p) (write b p)
        (Holds-write all p b h (front (all ++ p) (concat ps) s')) s')

-- However what the process writes to its standard error is split into writes, if it is below 2^64
-- bytes: the buffer keeps its first 65536 bytes, or all of it if it is shorter, and counts the
-- bytes beyond.
pub write_all-prefix :
    (ps : List Bytes)
    → length (concat ps) < 2 ^ 64
    → ((write_all empty_buffer ps).kept ≡ take max_stderr (concat ps))
      × ((write_all empty_buffer ps).dropped ≡ length (concat ps) - max_stderr)
write_all-prefix ps s =
    let h = Holds-write_all ps [] empty_buffer (record { prefix = refl; counted = refl }) s in
    (h.prefix, h.counted)
