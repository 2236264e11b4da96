-- ===== src/Keys/Runs.antt =====
-- The runs of `batchKeys` (keys.go).
use gotmucks.Base.{
  true, false, List, [], ◌∷◌, ◌++◌, ◌≡◌, ◌≢◌, refl, sym, ◌∙◌, ap, arith, All, All-append,
  append_assoc, append-nil, Bool-cases, inl, inr,
}
use gotmucks.Keys.{
  Key, KeyKind, key_named, key_literal, key_hex, same_kind, KeyRun, add_key, batch_from, batch_keys,
}

abbrev pub keys_of : List KeyRun → List Key
keys_of [] = []
keys_of (r ∷ rs) = r.keys ++ keys_of rs

-- Every key of the run is of the run's kind, and there is one.
pub record IsRun (r : KeyRun) : Type 0 where
  pub some_key : r.keys ≢ []
  pub one_kind : All (λ k. same_kind k.kind r.kind ≡ true) r.keys

-- No two runs that follow one another are of one kind.
abbrev pub Alternates : List KeyRun → Type 0
Alternates [] = Unit
Alternates (r ∷ []) = Unit
Alternates (r ∷ s ∷ rs) = (same_kind r.kind s.kind ≡ false) × Alternates (s ∷ rs)

add_key-keys : (rs : List KeyRun) (k : Key) → keys_of (add_key rs k) ≡ keys_of rs ++ k ∷ []
unfolding add_key
add_key-keys [] k = refl
add_key-keys (r ∷ []) k = elim (Bool-cases (same_kind r.kind k.kind)) [
  | inl same ↦ rw same (ground (arith, append-nil r.keys, append-nil (r.keys ++ k ∷ [])))
  | inr other ↦ rw other (ground (arith, append-nil r.keys))
]
add_key-keys (r ∷ s ∷ rs) k =
    ap (λ ks. r.keys ++ ks) (add_key-keys (s ∷ rs) k) ∙ sym (append_assoc r.keys _ (k ∷ []))

batch_from-keys : (rs : List KeyRun) (ks : List Key) → keys_of (batch_from rs ks) ≡ keys_of rs ++ ks
unfolding batch_from
batch_from-keys rs [] = sym (append-nil _)
batch_from-keys rs (k ∷ ks) =
    batch_from-keys (add_key rs k) ks
    ∙ ap (λ t. t ++ ks) (add_key-keys rs k)
    ∙ append_assoc (keys_of rs) (k ∷ []) ks

same_kind_self : (k : KeyKind) → same_kind k k ≡ true
unfolding same_kind
same_kind_self key_named = refl
same_kind_self key_literal = refl
same_kind_self key_hex = refl

same_kind_sym : (j k : KeyKind) → same_kind j k ≡ same_kind k j
unfolding same_kind
same_kind_sym j k = ground arith

one-IsRun : (k : Key) → IsRun (record { kind = k.kind; keys = k ∷ [] })
one-IsRun k = record { some_key = λ e. ground arith; one_kind = (same_kind_self k.kind, tt) }

concat-ne-nil : (ks : List Key) (k : Key) → ks ++ k ∷ [] ≢ []
concat-ne-nil [] k e = ground arith
concat-ne-nil (j ∷ ks) k e = ground arith

longer-IsRun :
    (r : KeyRun) (k : Key)
    → same_kind r.kind k.kind ≡ true
    → IsRun r
    → IsRun (record r { keys = r.keys ++ k ∷ [] })
longer-IsRun r k e h = record {
  some_key = concat-ne-nil r.keys k;
  one_kind = All-append _ r.keys (k ∷ []) h.one_kind (same_kind_sym k.kind r.kind ∙ e, tt);
}

add_key-IsRun : (rs : List KeyRun) (k : Key) → All IsRun rs → All IsRun (add_key rs k)
unfolding add_key
add_key-IsRun [] k h = (one-IsRun k, tt)
add_key-IsRun (r ∷ []) k h = elim (Bool-cases (same_kind r.kind k.kind)) [
  | inl same ↦ rw same (longer-IsRun r k same h.0, tt)
  | inr other ↦ rw other (h.0, (one-IsRun k, tt))
]
add_key-IsRun (r ∷ s ∷ rs) k h = (h.0, add_key-IsRun (s ∷ rs) k h.1)

-- A key changes the kind of no run that is there.
Alternates-cons :
    (r s : KeyRun) (rs : List KeyRun) (k : Key)
    → same_kind r.kind s.kind ≡ false
    → Alternates (add_key (s ∷ rs) k)
    → Alternates (r ∷ add_key (s ∷ rs) k)
unfolding add_key
Alternates-cons r s [] k e h = elim (Bool-cases (same_kind s.kind k.kind)) [
  | inl same ↦ rw same (e, tt)
  | inr other ↦ rw other (e, (other, tt))
]
Alternates-cons r s (t ∷ rs) k e h = (e, h)

add_key-Alternates : (rs : List KeyRun) (k : Key) → Alternates rs → Alternates (add_key rs k)
unfolding add_key
add_key-Alternates [] k h = tt
add_key-Alternates (r ∷ []) k h = elim (Bool-cases (same_kind r.kind k.kind)) [
  | inl same ↦ rw same tt
  | inr other ↦ rw other (other, tt)
]
add_key-Alternates (r ∷ s ∷ rs) k h =
    Alternates-cons r s rs k h.0 (add_key-Alternates (s ∷ rs) k h.1)

batch_from-runs :
    (rs : List KeyRun) (ks : List Key)
    → All IsRun rs
    → Alternates rs
    → All IsRun (batch_from rs ks) × Alternates (batch_from rs ks)
unfolding batch_from
batch_from-runs rs [] h a = (h, a)
batch_from-runs rs (k ∷ ks) h a =
    batch_from-runs (add_key rs k) ks (add_key-IsRun rs k h) (add_key-Alternates rs k a)

-- The runs hold the keys given, in order and each once; no run is empty or mixes kinds; and two
-- runs that follow one another differ in kind.
pub batch_keys-runs :
    (ks : List Key)
    → (keys_of (batch_keys ks) ≡ ks) × All IsRun (batch_keys ks) × Alternates (batch_keys ks)
unfolding batch_keys
batch_keys-runs ks =
    let (runs, kinds) = batch_from-runs [] ks tt tt in (batch_from-keys [] ks, runs, kinds)
