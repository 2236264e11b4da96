-- ===== src/Base/Kept.antt =====
-- Lists with some elements left out.
use mathlib.Core.List.{List, [], ◌∷◌, ◌++◌}

-- `xs` is `ys` with some elements left out.
pub data Kept {ℓ} {A : Type ℓ} : List A → List A → Type ℓ where
  done : Kept [] []
  keep : {x : A} {xs ys : List A} → Kept xs ys → Kept (x ∷ xs) (x ∷ ys)
  skip : {y : A} {xs ys : List A} → Kept xs ys → Kept xs (y ∷ ys)

pub Kept-concat {ℓ} :
    {A : Type ℓ} (x : A) {xs ys : List A} → Kept xs ys → Kept (xs ++ x ∷ []) (ys ++ x ∷ [])
Kept-concat x done = keep done
Kept-concat x (keep h) = keep (Kept-concat x h)
Kept-concat x (skip h) = skip (Kept-concat x h)

pub Kept-skip {ℓ} : {A : Type ℓ} (y : A) {xs ys : List A} → Kept xs ys → Kept xs (ys ++ y ∷ [])
Kept-skip y done = skip done
Kept-skip y (keep h) = keep (Kept-skip y h)
Kept-skip y (skip h) = skip (Kept-skip y h)
