-- ===== src/Windows/Record.antt =====
-- window.go: the record of a window, and how it is read from a row.
use gotmucks.Base.{Bool, [], ◌∷◌, Bytes, codes}
use gotmucks.Base.Int.{ℤ}
use gotmucks.Vis.{vis_decode}
use gotmucks.Ids.{SessionId, WindowId}
use gotmucks.Format.{FormatSpec, Row, get}
use gotmucks.Format.Access.{Field, value, ◌>>=◌, row_int, row_bool, row_session_id, row_window_id}

pub record Window : Type 0 where
  pub id : WindowId
  pub session : SessionId
  pub index : ℤ
  pub name : Bytes
  pub active : Bool
  pub panes : ℤ
  pub layout : Bytes
  pub width : ℤ
  pub height : ℤ

abbrev pub window_spec : FormatSpec
window_spec =
    codes "window_id"
    ∷ codes "session_id"
    ∷ codes "window_index"
    ∷ codes "window_name"
    ∷ codes "window_active"
    ∷ codes "window_panes"
    ∷ codes "window_width"
    ∷ codes "window_height"
    ∷ codes "window_layout"
    ∷ []

unfoldable pub window_from_row : (Bytes → Bytes) → Row → Field Window
unfolding row_window_id row_session_id row_int row_bool get vis_decode
window_from_row unicode r = do
  id ← row_window_id r (codes "window_id")
  session ← row_session_id r (codes "session_id")
  index ← row_int r (codes "window_index")
  active ← row_bool unicode r (codes "window_active")
  panes ← row_int r (codes "window_panes")
  width ← row_int r (codes "window_width")
  height ← row_int r (codes "window_height")
  value (record {
    id = id;
    session = session;
    index = index;
    name = vis_decode (get r (codes "window_name"));
    active = active;
    panes = panes;
    layout = get r (codes "window_layout");
    width = width;
    height = height;
  })
