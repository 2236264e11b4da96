-- ===== src/Tests/Taps.antt =====
-- The theorems on taps and on what is kept of standard error, at concrete runs.
use gotmucks.Base.{
  false, ◌+◌, ◌≤◌, ◌-◌, ◌≡◌, refl, arith, List, [], ◌∷◌, ◌++◌, some, codes, length, take, bytes_eq,
}
use gotmucks.Base.Int.{pos}
use gotmucks.Base.Kept.{Kept}
use gotmucks.Ids.{PaneId}
use gotmucks.Control.{Conn, Tap, new_control_client}
use gotmucks.Control.Taps.{lookup_tap, dropped_output}
use gotmucks.Control.Taps.Map.{IsMap}
use gotmucks.Control.Taps.Refine.{Use, delivers, opens, receives}
use gotmucks.Control.Taps.Uses.{use_all, pane_run, use_all-pane_run}
use gotmucks.Control.Taps.Account.{sent_to, got_from, use_all-Balances}
use gotmucks.Control.Process.Stderr.{empty_buffer, max_stderr, write_all, concat, write_all-prefix}

abbrev pane_1 : PaneId
pane_1 = codes "%1"

abbrev small_tap : Tap
small_tap = record { items = []; cap = 1; drops = 0; total = 0; closed = false }

-- A connection with a tap of size one for the pane.
abbrev tapped : Conn
tapped = record (new_control_client 1) { taps = (pane_1, small_tap) ∷ [] }

-- The second delivery finds the tap full.
abbrev uses : List Use
uses =
    delivers pane_1 (codes "a") false (pos 0)
    ∷ delivers pane_1 (codes "b") false (pos 0)
    ∷ opens (codes "%2")
    ∷ receives pane_1
    ∷ delivers pane_1 (codes "c") false (pos 0)
    ∷ []

tapped-IsMap : IsMap tapped.taps
unfolding lookup_tap
tapped-IsMap = (refl, tt)

tapped_found : lookup_tap pane_1 tapped.taps ≡ some small_tap
unfolding lookup_tap bytes_eq
tapped_found = refl

sent_three : sent_to pane_1 uses ≡ codes "a" ∷ codes "b" ∷ codes "c" ∷ []
unfolding sent_to bytes_eq
sent_three = refl

use_all-pane_run_example :
    IsMap (use_all tapped uses).taps
    × ((id : PaneId)
        → lookup_tap id (use_all tapped uses).taps
          ≡ pane_run tapped.output_buffer tapped.closed id uses (lookup_tap id tapped.taps))
use_all-pane_run_example = use_all-pane_run tapped uses tapped-IsMap

use_all-Balances_example :
    (t : Tap) × (lookup_tap pane_1 (use_all tapped uses).taps ≡ some t)
    × Kept (got_from pane_1 uses small_tap ++ t.items) (sent_to pane_1 uses)
    × (length (got_from pane_1 uses small_tap ++ t.items)
          + dropped_output (use_all tapped uses) pane_1
        ≡ length (sent_to pane_1 uses))
    × (length t.items ≤ t.cap)
use_all-Balances_example =
    use_all-Balances tapped uses pane_1 small_tap tapped-IsMap tapped_found (refl, refl, refl)
      (tt, (tt, (tt, (tt, (tt, tt))))) (rw sent_three (omega arith))

write_all-prefix_example :
    ((write_all empty_buffer (codes "no " ∷ codes "server" ∷ [])).kept
      ≡ take max_stderr (concat (codes "no " ∷ codes "server" ∷ [])))
    × ((write_all empty_buffer (codes "no " ∷ codes "server" ∷ [])).dropped
        ≡ length (concat (codes "no " ∷ codes "server" ∷ [])) - max_stderr)
write_all-prefix_example = write_all-prefix (codes "no " ∷ codes "server" ∷ []) (omega arith)
