-- ===== src/Control/Taps/Uses.antt =====
-- The taps of a connection under any uses, against the machines of the panes.
use gotmucks.Base.{
  ℕ, Bool, true, false, ◌≢◌, ◌≡◌, refl, ap, subst, ◌∙◌, arith, List, [], ◌∷◌, Option, none,
  bytes_eq, bytes_eq_iff, bytes_eq_self, Bool-cases, Option-cases, inl, inr, if◌then◌else◌,
}
use gotmucks.Ids.{PaneId, valid_id, pane_sigil, check_id}
use gotmucks.Control.{Conn, Tap}
use gotmucks.Control.Taps.{lookup_tap, output, open_output, register_tap}
use gotmucks.Control.Taps.Map.{IsMap, lookup-append, IsMap-append, lookup-append_other}
use gotmucks.Control.Taps.Refine.{
  Use, delivers, opens, untaps, receives, use_taps, pane_of, pane_step, Refines, Refines-same,
  Refines-delivers, Refines-receives, Refines-untaps,
}

-- What `Output` does once the identifier has passed its check.
output_valid :
    (c : Conn) (id : PaneId)
    → valid_id id pane_sigil ≡ true
    → (output c id).0 ≡ register_tap c id (lookup_tap id c.taps)
unfolding output open_output check_id
output_valid c id good = rw good refl

output_invalid : (c : Conn) (id : PaneId) → valid_id id pane_sigil ≡ false → (output c id).0 ≡ c
unfolding output open_output check_id
output_invalid c id bad = rw bad refl

Refines-new :
    (c : Conn) (id : PaneId)
    → IsMap c.taps
    → valid_id id pane_sigil ≡ true
    → lookup_tap id c.taps ≡ none
    → Refines c (opens id) (register_tap c id none)
unfolding pane_step register_tap
Refines-new c id m good l = record {
  is_map = IsMap-append id _ c.taps m l;
  steps = lookup-append id id _ c.taps ∙ rw (l, bytes_eq_self id, good) refl;
  others = λ j n. lookup-append_other id j _ c.taps n;
  same_size = refl;
  same_flag = refl;
}

Refines-opens : (c : Conn) (id : PaneId) → IsMap c.taps → Refines c (opens id) (output c id).0
unfolding pane_step
Refines-opens c id m = elim (Bool-cases (valid_id id pane_sigil)) [
  | inr bad ↦
      rw (output_invalid c id bad) (Refines-same c c (opens id) m refl (rw bad refl) refl refl)
  | inl good ↦ elim (Option-cases (lookup_tap id c.taps)) [
    | inl l ↦ rw (output_valid c id good, l) (Refines-new c id m good l)
    | inr (t, l) ↦
        rw (output_valid c id good, l)
          (unfold register_tap in Refines-same c c (opens id) m refl (rw (good, l) refl) refl refl)
  ]
]

use_taps-Refines : (c : Conn) (u : Use) → IsMap c.taps → Refines c u (use_taps c u)
unfolding use_taps
use_taps-Refines c (delivers id bytes ext age) m = Refines-delivers c id bytes ext age m
use_taps-Refines c (opens id) m = Refines-opens c id m
use_taps-Refines c (untaps id) m = Refines-untaps c id m
use_taps-Refines c (receives id) m = Refines-receives c id m

-- All uses, in order.
unfoldable pub use_all : Conn → List Use → Conn
unfolding use_taps
use_all c [] = c
use_all c (u ∷ us) = use_all (use_taps c u) us

-- The machine of one pane, which takes no notice of the uses of others.
unfoldable pub pane_run : ℕ → Bool → PaneId → List Use → Option Tap → Option Tap
unfolding pane_step bytes_eq
pane_run cap closed id [] v = v
pane_run cap closed id (u ∷ us) v =
    pane_run cap closed id us (if bytes_eq (pane_of u) id then pane_step cap closed u v else v)

differ : (a b : PaneId) → bytes_eq a b ≡ false → a ≢ b
differ a b h e = ground (arith, bytes_eq_iff a b)

pane_view :
    (c c' : Conn) (u : Use) (id : PaneId)
    → Refines c u c'
    → lookup_tap id c'.taps ≡ (
        if bytes_eq (pane_of u) id
        then pane_step c.output_buffer c.closed u (lookup_tap id c.taps)
        else lookup_tap id c.taps)
pane_view c c' u id r = elim (Bool-cases (bytes_eq (pane_of u) id)) [
  | inl e ↦ rw e (
      subst (λ j. lookup_tap j c'.taps ≡ pane_step c.output_buffer c.closed u (lookup_tap j c.taps))
        ((bytes_eq_iff (pane_of u) id).0 e) r.steps)
  | inr e ↦ rw e (r.others id (λ h. differ (pane_of u) id e h))
]

-- Where the taps have one entry for a pane at most: whatever is delivered, opened, closed and
-- received on a connection, in whatever order, each pane's tap is what the machine of that pane
-- alone makes of the uses that name it, and the taps have one entry for a pane still.
pub use_all-pane_run :
    (c : Conn) (us : List Use)
    → IsMap c.taps
    → IsMap (use_all c us).taps
      × ((id : PaneId)
          → lookup_tap id (use_all c us).taps
            ≡ pane_run c.output_buffer c.closed id us (lookup_tap id c.taps))
unfolding use_all pane_run
use_all-pane_run c [] m = (m, λ id. refl)
use_all-pane_run c (u ∷ us) m =
    let r = use_taps-Refines c u m in
    let rest = use_all-pane_run (use_taps c u) us r.is_map in
    (
      rest.0,
      λ id.
          rest.1 id
          ∙ ap (λ n. pane_run n (use_taps c u).closed id us (lookup_tap id (use_taps c u).taps))
              r.same_size
          ∙ ap (λ b. pane_run c.output_buffer b id us (lookup_tap id (use_taps c u).taps))
              r.same_flag
          ∙ ap (pane_run c.output_buffer c.closed id us) (pane_view c (use_taps c u) u id r),
    )
