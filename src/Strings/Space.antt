-- ===== src/Strings/Space.antt =====
-- `strings.TrimSpace` and `strings.Fields`. White space is Unicode's, read from UTF-8: a white
-- space character of several bytes begins with a byte that stands inside no other character, so
-- looking for one at each index finds what decoding rune by rune finds.
use gotmucks.Base.{
  ℕ, zero, suc, ◌<◌, ◌≡◌, ◌≢◌, arith, Bool, true, false, ◌&&◌, ◌||◌, List, [], ◌∷◌, ◌++◌, Bytes,
  ◌==◌, leb, if◌then◌else◌,
}

abbrev pub is_ascii_space : ℕ → Bool
is_ascii_space c = c == b' ' || (leb 9 c && leb c 13)

three_byte_space : ℕ → ℕ → Bytes → ℕ
three_byte_space c d [] = 0
three_byte_space c d (e ∷ _) =
    if (c == 0xe1 && d == 0x9a && e == 0x80)
      || (c == 0xe2
          && d == 0x80
          && ((leb 0x80 e && leb e 0x8a) || e == 0xa8 || e == 0xa9 || e == 0xaf))
      || (c == 0xe2 && d == 0x81 && e == 0x9f)
      || (c == 0xe3 && d == 0x80 && e == 0x80)
    then 3
    else 0

two_byte_space : ℕ → Bytes → ℕ
unfolding three_byte_space
two_byte_space c [] = 0
two_byte_space c (d ∷ s) =
    if c == 0xc2 && (d == 0x85 || d == 0xa0) then 2 else three_byte_space c d s

-- The bytes of the white space character that the text begins with; 0 if it begins with none.
unfoldable pub space_len : Bytes → ℕ
unfolding two_byte_space
space_len [] = 0
space_len (c ∷ s) = if is_ascii_space c then 1 else two_byte_space c s

-- The first argument counts the bytes left of a white space character that is being passed.
trim_left : ℕ → Bytes → Bytes
trim_left k [] = []
trim_left (suc k) (c ∷ s) = trim_left k s
trim_left zero (c ∷ s) = elim (space_len (c ∷ s)) [ zero ↦ c ∷ s | suc k ↦ trim_left k s ]

all_space : ℕ → Bytes → Bool
all_space k [] = true
all_space (suc k) (c ∷ s) = all_space k s
all_space zero (c ∷ s) = elim (space_len (c ∷ s)) [ zero ↦ false | suc k ↦ all_space k s ]

trim_right : Bytes → Bytes
unfolding all_space
trim_right [] = []
trim_right (c ∷ s) = let rest = trim_right s in if all_space 0 (c ∷ s) then [] else c ∷ rest

unfoldable pub trim_space : Bytes → Bytes
unfolding trim_left trim_right space_len
trim_space s = trim_right (trim_left 0 s)

-- The field read so far, in front of the others, if it is not empty.
abbrev flush : Bytes → List Bytes → List Bytes
flush [] fs = fs
flush (c ∷ s) fs = (c ∷ s) ∷ fs

fields_from : ℕ → Bytes → Bytes → List Bytes
fields_from k field [] = flush field []
fields_from (suc k) field (c ∷ s) = fields_from k field s
fields_from zero field (c ∷ s) = elim (space_len (c ∷ s)) [
  | zero ↦ fields_from zero (field ++ c ∷ []) s
  | suc k ↦ flush field (fields_from k [] s)
]

-- `strings.Fields`.
unfoldable pub fields : Bytes → List Bytes
unfolding fields_from space_len
fields = fields_from 0 []

-- A byte of ASCII that is no white space is no part of one.
pub space_len_visible : (c : ℕ) (s : Bytes) → b' ' < c → c < 0x80 → space_len (c ∷ s) ≡ 0
unfolding space_len
space_len_visible c [] lo hi = ground arith
space_len_visible c (d ∷ []) lo hi = ground arith
space_len_visible c (d ∷ e ∷ s) lo hi = ground arith

-- A text that begins with such a byte is not trimmed away.
pub trim_space-ne-nil : (c : ℕ) (s : Bytes) → b' ' < c → c < 0x80 → trim_space (c ∷ s) ≢ []
unfolding trim_space
trim_space-ne-nil c s lo hi = let e = space_len_visible c s lo hi in ground (arith, e)
