-- ===== src/Sessions/Record.antt =====
-- session.go: the record of a session, and how it is read from a row.
use gotmucks.Base.{Bool, [], ◌∷◌, Bytes, codes}
use gotmucks.Base.Int.{ℤ, pos, ltb_ℤ}
use gotmucks.Vis.{vis_decode}
use gotmucks.Ids.{SessionId}
use gotmucks.Format.{FormatSpec, Row, get}
use gotmucks.Format.Access.{Field, value, ◌>>=◌, Time, row_int, row_time, row_session_id}

pub record Session : Type 0 where
  pub id : SessionId
  pub name : Bytes
  pub windows : ℤ
  pub created : Time
  pub activity : Time
  pub attached : ℤ

unfoldable pub is_attached : Session → Bool
is_attached s = ltb_ℤ (pos 0) s.attached

abbrev pub session_spec : FormatSpec
session_spec =
    codes "session_id"
    ∷ codes "session_name"
    ∷ codes "session_windows"
    ∷ codes "session_created"
    ∷ codes "session_activity"
    ∷ codes "session_attached"
    ∷ []

unfoldable pub session_from_row : Row → Field Session
unfolding row_session_id row_int row_time get vis_decode
session_from_row r = do
  id ← row_session_id r (codes "session_id")
  windows ← row_int r (codes "session_windows")
  created ← row_time r (codes "session_created")
  activity ← row_time r (codes "session_activity")
  attached ← row_int r (codes "session_attached")
  value (record {
    id = id;
    name = vis_decode (get r (codes "session_name"));
    windows = windows;
    created = created;
    activity = activity;
    attached = attached;
  })
