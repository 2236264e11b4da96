-- ===== src/Control/Taps/Map.antt =====
-- The association list of taps as a finite map.
use gotmucks.Base.{
  false, ◌≢◌, ◌≡◌, refl, ap, ◌∙◌, arith, List, [], ◌∷◌, ◌++◌, none, some, bytes_eq, bytes_eq_iff,
  bytes_eq_self, Bool-cases, inl, inr, if◌then◌else◌,
}
use gotmucks.Ids.{PaneId}
use gotmucks.Control.{Tap}
use gotmucks.Control.Taps.{lookup_tap, update_tap, delete_tap}

abbrev pub TapList : Type 0
TapList = List (PaneId × Tap)

-- Each pane has one entry at most.
abbrev pub IsMap : TapList → Type 0
IsMap [] = Unit
IsMap ((j, t) ∷ ts) = (lookup_tap j ts ≡ none) × IsMap ts

pub lookup-update_same :
    (id : PaneId) (t : Tap) (ts : TapList) → lookup_tap id (update_tap id t ts) ≡ some t
unfolding lookup_tap update_tap
lookup-update_same id t [] = ground (arith, bytes_eq_self id)
lookup-update_same id t ((j, u) ∷ ts) = ground (arith, lookup-update_same id t ts)

pub lookup-update_other :
    (id j : PaneId) (t : Tap) (ts : TapList)
    → id ≢ j
    → lookup_tap j (update_tap id t ts) ≡ lookup_tap j ts
unfolding lookup_tap update_tap
lookup-update_other id j t [] n = ground (arith, bytes_eq_iff id j)
lookup-update_other id j t ((k, u) ∷ ts) n =
    ground (arith, bytes_eq_iff k id, bytes_eq_iff k j, lookup-update_other id j t ts)

ne_of_eq : (a b : PaneId) → bytes_eq a b ≡ false → b ≢ a
ne_of_eq a b h e = ground (arith, bytes_eq_iff a b)

pub IsMap-update : (id : PaneId) (t : Tap) (ts : TapList) → IsMap ts → IsMap (update_tap id t ts)
unfolding update_tap
IsMap-update id t [] h = unfold lookup_tap in (refl, tt)
IsMap-update id t ((j, u) ∷ ts) h = elim (Bool-cases (bytes_eq j id)) [
  | inl e ↦ rw e h
  | inr e ↦ rw e (lookup-update_other id j t ts (ne_of_eq j id e) ∙ h.0, IsMap-update id t ts h.1)
]

pub lookup-delete_same :
    (id : PaneId) (ts : TapList) → IsMap ts → lookup_tap id (delete_tap id ts) ≡ none
unfolding lookup_tap delete_tap
lookup-delete_same id [] h = refl
lookup-delete_same id ((j, u) ∷ ts) h =
    ground (arith, bytes_eq_iff j id, lookup-delete_same id ts h.1, h.0)

pub lookup-delete_other :
    (id j : PaneId) (ts : TapList) → id ≢ j → lookup_tap j (delete_tap id ts) ≡ lookup_tap j ts
unfolding lookup_tap delete_tap
lookup-delete_other id j [] n = refl
lookup-delete_other id j ((k, u) ∷ ts) n =
    ground (arith, bytes_eq_iff k id, bytes_eq_iff k j, lookup-delete_other id j ts)

pub lookup-append :
    (id j : PaneId) (t : Tap) (ts : TapList)
    → lookup_tap j (ts ++ (id, t) ∷ []) ≡ (elim (lookup_tap j ts) [
      | some u ↦ some u
      | none ↦ (if bytes_eq id j then some t else none)
    ])
unfolding lookup_tap
lookup-append id j t [] = refl
lookup-append id j t ((k, u) ∷ ts) = ground (arith, lookup-append id j t ts)

pub IsMap-delete : (id : PaneId) (ts : TapList) → IsMap ts → IsMap (delete_tap id ts)
unfolding delete_tap
IsMap-delete id [] h = tt
IsMap-delete id ((j, u) ∷ ts) h = elim (Bool-cases (bytes_eq j id)) [
  | inl e ↦ rw e h.1
  | inr e ↦ rw e (lookup-delete_other id j ts (ne_of_eq j id e) ∙ h.0, IsMap-delete id ts h.1)
]

skip :
    (id j : PaneId) (u : Tap) (ts : TapList)
    → lookup_tap id ((j, u) ∷ ts) ≡ none
    → (lookup_tap id ts ≡ none) × (bytes_eq id j ≡ false)
unfolding lookup_tap
skip id j u ts n = ground (arith, bytes_eq_iff id j, bytes_eq_iff j id)

pub IsMap-append :
    (id : PaneId) (t : Tap) (ts : TapList)
    → IsMap ts
    → lookup_tap id ts ≡ none
    → IsMap (ts ++ (id, t) ∷ [])
IsMap-append id t [] h n = unfold lookup_tap in (refl, tt)
IsMap-append id t ((j, u) ∷ ts) h n =
    let tail = skip id j u ts n in
    (
      lookup-append id j t ts ∙ rw h.0 (ap (λ b. if b then some t else none) tail.1),
      IsMap-append id t ts h.1 tail.0,
    )

pub lookup-append_other :
    (id j : PaneId) (t : Tap) (ts : TapList)
    → id ≢ j
    → lookup_tap j (ts ++ (id, t) ∷ []) ≡ lookup_tap j ts
lookup-append_other id j t ts n = ground (arith, lookup-append id j t ts, bytes_eq_iff id j)
