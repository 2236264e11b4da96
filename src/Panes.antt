-- ===== src/Panes.antt =====
-- pane.go: how panes are listed and captured.
mod Record
use gotmucks.Base.{
  Bool, true, false, List, [], ◌∷◌, ◌++◌, Bytes, Option, none, some, codes, if◌then◌else◌, bytes_eq,
}
use gotmucks.Base.Int.{ℤ}
use gotmucks.Strings.Decimal.{itoa}
use gotmucks.Ids.{
  SessionId, WindowId, PaneId, check_id, session_sigil, window_sigil, pane_sigil, session, window,
  pane,
}
use gotmucks.Config.{Config}
use gotmucks.Errors.{no_pane}
use gotmucks.Format.{Row}
use gotmucks.Format.Access.{Field, value, wrong}
use gotmucks.Format.Query.{Refusal, bad_field, query_args}
use gotmucks.Client.Run.{Outside, Op, invalid, absent, refused, ◌>>=◌, ◌>>◌, done, fail, guard, run}
unfoldable pub use Record.*

-- The loop of `Pane` over the listing.
unfoldable pub find_pane : PaneId → List Pane → Option Pane
unfolding bytes_eq
find_pane id [] = none
find_pane id (p ∷ ps) = let rest = find_pane id ps in if bytes_eq p.id id then some p else rest

pub record CaptureOptions : Type 0 where
  pub escapes : Bool
  pub join : Bool
  pub preserve_trailing_spaces : Bool
  pub start : Option ℤ
  pub stop : Option ℤ
  pub full_history : Bool

abbrev flag_if : Bool → Bytes → List Bytes
flag_if true f = f ∷ []
flag_if false f = []

abbrev pub line_option : Bytes → Option ℤ → List Bytes
unfolding itoa
line_option flag none = []
line_option flag (some n) = flag ∷ itoa n ∷ []

unfoldable pub capture_args : CaptureOptions → List Bytes
unfolding line_option
capture_args o =
    codes "-p"
    ∷ (flag_if o.escapes (codes "-e")
        ++ (flag_if o.join (codes "-J")
            ++ (flag_if o.preserve_trailing_spaces (codes "-N")
                ++ ((if o.full_history
                      then codes "-S" ∷ codes "-" ∷ []
                      else line_option (codes "-S") o.start)
                    ++ line_option (codes "-E") o.stop))))

module _ {W : Type 0} (out : Outside W) (cfg : Config) where
  -- The loop of `panes`.
  unfoldable pub read_panes : List Row → Op W Refusal (List Pane)
  unfolding pane_from_row
  read_panes [] = done []
  read_panes (r ∷ rs) = elim (pane_from_row out.unicode_lower r) [
    | wrong e ↦ fail (refused (bad_field e))
    | value p ↦ do rest ← read_panes rs; done (p ∷ rest)
  ]

  unfoldable pub panes_of : List Bytes → Op W Refusal (List Pane)
  unfolding query_args read_panes
  panes_of args = do rows ← query_args out cfg pane_spec args; read_panes rows

  unfoldable pub list_panes : Op W Refusal (List Pane)
  unfolding panes_of
  list_panes = panes_of (codes "list-panes" ∷ codes "-a" ∷ [])

  unfoldable pub list_session_panes : SessionId → Op W Refusal (List Pane)
  unfolding check_id panes_of
  list_session_panes id = do
    guard invalid (check_id id session_sigil session)
    panes_of (codes "list-panes" ∷ codes "-s" ∷ codes "-t" ∷ id ∷ [])

  unfoldable pub list_window_panes : WindowId → Op W Refusal (List Pane)
  unfolding check_id panes_of
  list_window_panes id = do
    guard invalid (check_id id window_sigil window)
    panes_of (codes "list-panes" ∷ codes "-t" ∷ id ∷ [])

  unfoldable pub pane_by_id : PaneId → Op W Refusal Pane
  unfolding check_id list_panes find_pane
  pane_by_id id = do
    guard invalid (check_id id pane_sigil pane)
    ps ← list_panes
    elim (find_pane id ps) [ some p ↦ done p | none ↦ fail (absent no_pane id) ]

  unfoldable pub capture_pane : PaneId → CaptureOptions → Op W Refusal Bytes
  unfolding check_id capture_args run
  capture_pane id o = do
    guard invalid (check_id id pane_sigil pane)
    run out cfg (codes "capture-pane" ∷ (capture_args o ++ codes "-t" ∷ id ∷ []))
