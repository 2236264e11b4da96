-- ===== src/Vis/RoundTrip.antt =====
-- vis.go: the two directions together.
use gotmucks.Base.{
  ℕ, ◌≤◌, ◌≢◌, not, false, [], ◌∷◌, ◌++◌, ◌≡◌, refl, ap, ◌∙◌, arith, Bytes, All, All-append, length,
  take, drop, if◌then◌else◌, contains_byte,
}
use gotmucks.Vis.{
  simple_escape, octal_byte, decode_from, vis_decode, vis_escape, is_empty, first_escaped,
  encode_from, vis_encode,
}

decode_from-Lacks : (s : Bytes) → contains_byte b'\\' s ≡ false → decode_from 0 s ≡ s
unfolding decode_from contains_byte
decode_from-Lacks [] h = refl
decode_from-Lacks (c ∷ []) h = refl
decode_from-Lacks (c ∷ d ∷ s) h = ground (arith, decode_from-Lacks (d ∷ s))

-- The shortcut for a text with no backslash changes nothing.
pub vis_decode-loop : (v : Bytes) → vis_decode v ≡ decode_from 0 v
unfolding vis_decode
vis_decode-loop v = ground (arith, decode_from-Lacks v)

encode_byte : ℕ → Bytes
encode_byte c = if not (is_empty (vis_escape c)) then vis_escape c else c ∷ []

encode_from-cons : (c : ℕ) (s : Bytes) → encode_from (c ∷ s) ≡ encode_byte c ++ encode_from s
unfolding encode_from encode_byte
encode_from-cons c s = ground arith

decode-encode_byte :
    (c : ℕ) (rest : Bytes) → decode_from 0 (encode_byte c ++ rest) ≡ c ∷ decode_from 0 rest
unfolding decode_from encode_byte vis_escape simple_escape octal_byte
decode-encode_byte c [] = ground arith
decode-encode_byte c (d ∷ rest) = ground arith

decode-encode_from : (s : Bytes) → decode_from 0 (encode_from s) ≡ s
decode-encode_from [] = unfold decode_from encode_from in refl
decode-encode_from (c ∷ s) =
    rw encode_from-cons (decode-encode_byte c (encode_from s) ∙ ap (◌∷◌ c) (decode-encode_from s))

-- Writing the part before the first escape as it stands is the same as encoding it.
split-encode_from :
    (s : Bytes) → take (first_escaped s) s ++ encode_from (drop (first_escaped s) s) ≡ encode_from s
unfolding first_escaped encode_from
split-encode_from [] = refl
split-encode_from (c ∷ s) = ground (arith, split-encode_from s)

unescaped-encode_from : (s : Bytes) → first_escaped s ≡ length s → encode_from s ≡ s
unfolding first_escaped encode_from
unescaped-encode_from [] h = refl
unescaped-encode_from (c ∷ s) h = ground (arith, unescaped-encode_from s)

vis_encode-loop : (s : Bytes) → vis_encode s ≡ encode_from s
unfolding vis_encode
vis_encode-loop s = ground (arith, split-encode_from s, unescaped-encode_from s)

-- Every text is read back from its vis encoding.
pub vis_decode-vis_encode : (s : Bytes) → vis_decode (vis_encode s) ≡ s
vis_decode-vis_encode s =
    vis_decode-loop _ ∙ ap (decode_from 0) (vis_encode-loop s) ∙ decode-encode_from s

abbrev pub IsPrintable : Bytes → Type 0
IsPrintable = All (λ c. (0x20 ≤ c) × (c ≢ 0x7f))

encode_byte-IsPrintable : (c : ℕ) → IsPrintable (encode_byte c)
unfolding encode_byte vis_escape
encode_byte-IsPrintable c = ground arith

encode_from-IsPrintable : (s : Bytes) → IsPrintable (encode_from s)
encode_from-IsPrintable [] = unfold encode_from in tt
encode_from-IsPrintable (c ∷ s) = rw encode_from-cons (
    All-append _ (encode_byte c) (encode_from s) (encode_byte-IsPrintable c)
      (encode_from-IsPrintable s))

-- The vis encoding holds neither a byte below space nor DEL.
vis_encode-IsPrintable : (s : Bytes) → IsPrintable (vis_encode s)
vis_encode-IsPrintable s = rw vis_encode-loop (encode_from-IsPrintable s)
