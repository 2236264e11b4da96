-- ===== src/Dict.antt =====
-- Go's maps from strings to strings: each key is listed once, and the order says nothing.
use gotmucks.Base.{
  false, List, [], ◌∷◌, ◌++◌, ◌≡◌, ◌≢◌, refl, ap, ◌∙◌, arith, Bytes, Option, none, some,
  if◌then◌else◌, bytes_eq, bytes_eq_iff, bytes_eq_self, All, Bool-cases, inl, inr,
}

abbrev pub Dict : Type 0
Dict = List (Bytes × Bytes)

-- `m[k] = v`.
unfoldable pub put : Bytes → Bytes → Dict → Dict
unfolding bytes_eq
put k v [] = (k, v) ∷ []
put k v ((l, x) ∷ m) = let rest = put k v m in if bytes_eq l k then (k, v) ∷ m else (l, x) ∷ rest

-- `v, ok := m[k]`.
unfoldable pub look : Bytes → Dict → Option Bytes
unfolding bytes_eq
look k [] = none
look k ((l, x) ∷ m) = let rest = look k m in if bytes_eq l k then some x else rest

pub ne-bytes_eq : (a b : Bytes) → a ≢ b → bytes_eq a b ≡ false
ne-bytes_eq a b h = ground (arith, bytes_eq_iff a b)

pub look-put_same : (k v : Bytes) (m : Dict) → look k (put k v m) ≡ some v
unfolding look put
look-put_same k v [] = rw bytes_eq_self refl
look-put_same k v ((l, x) ∷ m) = ground (arith, bytes_eq_self k, look-put_same k v m)

pub look-put_other : (k j v : Bytes) (m : Dict) → k ≢ j → look j (put k v m) ≡ look j m
unfolding look put
look-put_other k j v [] h = rw (ne-bytes_eq k j h) refl
look-put_other k j v ((l, x) ∷ m) h =
    ground (arith, bytes_eq_iff l k, bytes_eq_iff l j, ne-bytes_eq k j h, look-put_other k j v m h)

-- Storing these in order.
abbrev pub puts : Dict → Dict → Dict
puts [] m = m
puts ((k, v) ∷ es) m = puts es (put k v m)

-- The last of these that has the key, or what there was before.
unfoldable pub last_of : Bytes → Dict → Option Bytes → Option Bytes
unfolding bytes_eq
last_of k [] before = before
last_of k ((l, v) ∷ es) before = last_of k es (if bytes_eq l k then some v else before)

pub look-puts : (k : Bytes) (es m : Dict) → look k (puts es m) ≡ last_of k es (look k m)
unfolding last_of
look-puts k [] m = refl
look-puts k ((l, v) ∷ es) m = elim (Bool-cases (bytes_eq l k)) [
  | inl e ↦ rw e (
      look-puts k es (put l v m)
      ∙ ap (last_of k es) (rw ((bytes_eq_iff l k).0 e) (look-put_same k v m)))
  | inr e ↦ rw e (
      look-puts k es (put l v m)
      ∙ ap (last_of k es) (look-put_other l k v m (ground (arith, bytes_eq_self k, e))))
]

pub look-none : (k : Bytes) → look k [] ≡ none
unfolding look
look-none k = refl

last_of-none :
    (k : Bytes) (es : Dict) (o : Option Bytes) → All (λ e. e.0 ≢ k) es → last_of k es o ≡ o
unfolding last_of
last_of-none k [] o h = refl
last_of-none k ((l, v) ∷ es) o h = rw (ne-bytes_eq l k h.0) (last_of-none k es o h.1)

-- Where none after it has its key, an entry's value is the last one.
pub last_of-last :
    (k v : Bytes) (before after : Dict) (o : Option Bytes)
    → All (λ e. e.0 ≢ k) after
    → last_of k (before ++ (k, v) ∷ after) o ≡ some v
unfolding last_of
last_of-last k v [] after o h =
    last_of-none k after _ h ∙ ap (λ b. if b then some v else o) (bytes_eq_self k)
last_of-last k v (e ∷ before) after o h =
    last_of-last k v before after (if bytes_eq e.0 k then some e.1 else o) h
