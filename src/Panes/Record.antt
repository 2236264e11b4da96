-- ===== src/Panes/Record.antt =====
-- pane.go: the record of a pane, and how it is read from a row.
use gotmucks.Base.{Bool, [], ◌∷◌, Bytes, codes}
use gotmucks.Base.Int.{ℤ}
use gotmucks.Ids.{SessionId, WindowId, PaneId}
use gotmucks.Format.{FormatSpec, Row, get}
use gotmucks.Format.Access.{
  Field, value, ◌>>=◌, row_int, row_bool, row_session_id, row_window_id, row_pane_id,
}

pub record Pane : Type 0 where
  pub id : PaneId
  pub window : WindowId
  pub session : SessionId
  pub index : ℤ
  pub active : Bool
  pub dead : Bool
  pub pid : ℤ
  pub width : ℤ
  pub height : ℤ
  pub current_command : Bytes
  pub current_path : Bytes
  pub title : Bytes

abbrev pub pane_spec : FormatSpec
pane_spec =
    codes "pane_id"
    ∷ codes "window_id"
    ∷ codes "session_id"
    ∷ codes "pane_index"
    ∷ codes "pane_active"
    ∷ codes "pane_dead"
    ∷ codes "pane_pid"
    ∷ codes "pane_width"
    ∷ codes "pane_height"
    ∷ codes "pane_current_command"
    ∷ codes "pane_title"
    ∷ codes "pane_current_path"
    ∷ []

unfoldable pub pane_from_row : (Bytes → Bytes) → Row → Field Pane
unfolding row_pane_id row_window_id row_session_id row_int row_bool get
pane_from_row unicode r = do
  id ← row_pane_id r (codes "pane_id")
  window ← row_window_id r (codes "window_id")
  session ← row_session_id r (codes "session_id")
  index ← row_int r (codes "pane_index")
  active ← row_bool unicode r (codes "pane_active")
  dead ← row_bool unicode r (codes "pane_dead")
  pid ← row_int r (codes "pane_pid")
  width ← row_int r (codes "pane_width")
  height ← row_int r (codes "pane_height")
  value (record {
    id = id;
    window = window;
    session = session;
    index = index;
    active = active;
    dead = dead;
    pid = pid;
    width = width;
    height = height;
    current_command = get r (codes "pane_current_command");
    current_path = get r (codes "pane_current_path");
    title = get r (codes "pane_title");
  })
