-- ===== src/Vis.antt =====
-- vis.go: the vis(3) escaping of stored names and printed option values, both ways. A loop's index
-- is the part of the text that is left, with a count of the bytes that it has been moved over.
pub mod RoundTrip
pub mod Escapes
use gotmucks.Base.{
  ℕ, zero, suc, Bool, true, false, ◌||◌, ◌&&◌, not, ◌+◌, ◌/◌, ◌%◌, [], ◌∷◌, ◌++◌, Bytes, ◌==◌, ltb,
  leb, if◌then◌else◌, Option, none, some, ◌>>=◌, contains_byte, length, take, drop,
}
use gotmucks.Escape.{octal_loop}

-- The second byte of an escape of two bytes, and what it stands for.
pub simple_escape : ℕ → Option ℕ
simple_escape c =
    if c == b'a'
    then some 7
    else if c == b'b'
    then some 8
    else if c == b'f'
    then some 12
    else if c == b'n'
    then some 10
    else if c == b'r'
    then some 13
    else if c == b't'
    then some 9
    else if c == b'v'
    then some 11
    else if c == b's'
    then some b' '
    else if c == b'\\' || c == b'"' || c == b'\'' || c == b'$'
    then some c
    else none

-- The loop of `octalByte` is that of `octalTriple`, byte for byte.
unfoldable pub octal_byte : Bytes → Option ℕ
unfolding octal_loop
octal_byte s = do n ← octal_loop 3 0 s; if ltb 0xff n then none else some n

pub decode_from : ℕ → Bytes → Bytes
decode_from k [] = []
decode_from (suc k) (c ∷ s) = decode_from k s
decode_from zero (c ∷ []) = c ∷ []
decode_from zero (c ∷ d ∷ s) = elim (c == b'\\') [
  | false ↦ c ∷ decode_from 0 (d ∷ s)
  | true ↦ elim (simple_escape d) [
    | some b ↦ b ∷ decode_from 1 (d ∷ s)
    | none ↦ elim (octal_byte (d ∷ s)) [
      | some o ↦ o ∷ decode_from 3 (d ∷ s)
      | none ↦ b'\\' ∷ d ∷ decode_from 1 (d ∷ s)
    ]
  ]
]

unfoldable pub vis_decode : Bytes → Bytes
unfolding decode_from simple_escape octal_byte contains_byte
vis_decode v = if not (contains_byte b'\\' v) then v else decode_from 0 v

-- The escape of a byte, or the empty text for a byte that is written as it stands.
unfoldable pub vis_escape : ℕ → Bytes
vis_escape c =
    if c == b'\\'
    then b'\\' ∷ b'\\' ∷ []
    else if c == b'$'
    then b'\\' ∷ b'$' ∷ []
    else if c == 7
    then b'\\' ∷ b'a' ∷ []
    else if c == 8
    then b'\\' ∷ b'b' ∷ []
    else if c == 9
    then b'\\' ∷ b't' ∷ []
    else if c == 10
    then b'\\' ∷ b'n' ∷ []
    else if c == 11
    then b'\\' ∷ b'v' ∷ []
    else if c == 12
    then b'\\' ∷ b'f' ∷ []
    else if c == 13
    then b'\\' ∷ b'r' ∷ []
    else if leb 0x20 c && not (c == 0x7f)
    then []
    else b'\\' ∷ (b'0' + c / 64) ∷ (b'0' + c / 8 % 8) ∷ (b'0' + c % 8) ∷ []

abbrev is_empty : Bytes → Bool
is_empty [] = true
is_empty (c ∷ s) = false

-- The first loop of `visEncode`: the index of the first byte with an escape.
first_escaped : Bytes → ℕ
unfolding vis_escape
first_escaped [] = 0
first_escaped (c ∷ s) =
    let rest = first_escaped s in if not (is_empty (vis_escape c)) then 0 else suc rest

-- The second loop.
encode_from : Bytes → Bytes
unfolding vis_escape
encode_from [] = []
encode_from (c ∷ s) =
    let rest = encode_from s in
    if not (is_empty (vis_escape c)) then vis_escape c ++ rest else c ∷ rest

unfoldable pub vis_encode : Bytes → Bytes
unfolding first_escaped encode_from
vis_encode s =
    let i = first_escaped s in if i == length s then s else take i s ++ encode_from (drop i s)
