-- ===== src/Windows.antt =====
-- window.go: how windows are listed and renamed.
mod Record
use gotmucks.Base.{List, [], ◌∷◌, Bytes, Option, none, some, codes, if◌then◌else◌, bytes_eq}
use gotmucks.Ids.{SessionId, WindowId, check_id, session_sigil, window_sigil, session, window}
use gotmucks.Config.{Config}
use gotmucks.Errors.{no_window}
use gotmucks.Format.{Row, escape_format}
use gotmucks.Format.Access.{Field, value, wrong}
use gotmucks.Format.Query.{Refusal, bad_field, query_args}
use gotmucks.Client.Run.{
  Outside, Op, invalid, absent, refused, ◌>>=◌, ◌>>◌, done, fail, guard, run_ok, decode_stored,
}
unfoldable pub use Record.*

-- The loop of `Window` over the listing.
unfoldable pub find_window : WindowId → List Window → Option Window
unfolding bytes_eq
find_window id [] = none
find_window id (w ∷ ws) = let rest = find_window id ws in if bytes_eq w.id id then some w else rest

module _ {W : Type 0} (out : Outside W) (cfg : Config) where
  -- The loop of `windows`.
  unfoldable pub read_windows : List Row → Op W Refusal (List Window)
  unfolding window_from_row decode_stored
  read_windows [] = done []
  read_windows (r ∷ rs) = elim (window_from_row out.unicode_lower r) [
    | wrong e ↦ fail (refused (bad_field e))
    | value w ↦ do
      name ← decode_stored out cfg w.name
      rest ← read_windows rs
      done (record w { name = name } ∷ rest)
  ]

  unfoldable pub windows_of : List Bytes → Op W Refusal (List Window)
  unfolding query_args read_windows
  windows_of args = do rows ← query_args out cfg window_spec args; read_windows rows

  unfoldable pub list_windows : Op W Refusal (List Window)
  unfolding windows_of
  list_windows = windows_of (codes "list-windows" ∷ codes "-a" ∷ [])

  unfoldable pub list_session_windows : SessionId → Op W Refusal (List Window)
  unfolding check_id windows_of
  list_session_windows id = do
    guard invalid (check_id id session_sigil session)
    windows_of (codes "list-windows" ∷ codes "-t" ∷ id ∷ [])

  unfoldable pub window_by_id : WindowId → Op W Refusal Window
  unfolding check_id list_windows find_window
  window_by_id id = do
    guard invalid (check_id id window_sigil window)
    ws ← list_windows
    elim (find_window id ws) [ some w ↦ done w | none ↦ fail (absent no_window id) ]

  unfoldable pub rename_window : WindowId → Bytes → Op W Refusal (Unit {0})
  unfolding check_id escape_format run_ok
  rename_window id name = do
    guard invalid (check_id id window_sigil window)
    run_ok out cfg (codes "rename-window" ∷ codes "-t" ∷ id ∷ codes "--" ∷ escape_format name ∷ [])
