-- ===== src/Sessions/Listing.antt =====
-- `ListSessions` and `Session` of session.go, on what tmux prints for its sessions.
use gotmucks.Base.{
  true, ◌≡◌, refl, ap, ◌∙◌, arith, List, [], ◌∷◌, Bytes, All, All-append, Lacks, some, map, codes,
  bytes_eq,
}
use gotmucks.Base.Int.{ℤ}
use gotmucks.Strings.{join, is_digit}
use gotmucks.Strings.Decimal.{itoa, IsInt64}
use gotmucks.Vis.Escapes.{Escapes, Escapes-visible, vis_decode-Escapes}
use gotmucks.Ids.{valid_id, session_sigil, all_digits}
use gotmucks.Config.{Config}
use gotmucks.Version.{Version}
use gotmucks.Client.Lines.{written}
use gotmucks.Client.Run.{Outside, Client, ok, tmux_version, decode_stored, ◌>>=◌, and_then, done}
use gotmucks.Client.Run.Once.{kept, Prints, tmux_version_once, decode_stored-kept}
use gotmucks.Client.Visible.{IsVisible, IsOneLine, visible-IsOneLine, ended}
use gotmucks.Format.{Row, lookup, get, arg}
use gotmucks.Format.Access.{value}
use gotmucks.Format.Fields.{row_int-itoa, row_time-itoa, row_session_id_valid, itoa-visible}
use gotmucks.Format.Rows.{Values, values, printed, row_of, IsRow}
use gotmucks.Format.Query.{Refusal, query, query_args}
use gotmucks.Format.Printed.{query-printed}
use gotmucks.Sessions.{Session, session_spec, session_from_row, read_sessions, list_sessions}

-- A session as tmux holds it: its identifier, name, numbers and times.
pub record Held : Type 0 where
  pub id : Bytes
  pub name : Bytes
  pub windows : ℤ
  pub created : ℤ
  pub activity : ℤ
  pub attached : ℤ
  -- how its name is printed
  pub escaped : Bytes

pub record IsHeld (v : Version) (h : Held) : Type 0 where
  pub identified : valid_id h.id session_sigil ≡ true
  pub named : Escapes (kept v h.name) h.escaped
  pub windows_fit : IsInt64 h.windows
  pub created_fit : IsInt64 h.created
  pub activity_fit : IsInt64 h.activity
  pub attached_fit : IsInt64 h.attached

abbrev pub session_of : Held → Session
session_of h = record {
  id = h.id;
  name = h.name;
  windows = h.windows;
  created = some h.created;
  activity = some h.activity;
  attached = h.attached;
}

abbrev pub values_of : Held → Values
values_of h = record {
  front = h.id ∷ h.escaped ∷ itoa h.windows ∷ itoa h.created ∷ itoa h.activity ∷ [];
  last = itoa h.attached;
}

abbrev row : Held → Row
row h = row_of session_spec (values_of h)

found_id : (h : Held) → lookup (row h) (codes "session_id") ≡ some h.id
unfolding lookup bytes_eq
found_id h = refl

found_name : (h : Held) → get (row h) (codes "session_name") ≡ h.escaped
unfolding get lookup bytes_eq
found_name h = refl

found_windows : (h : Held) → lookup (row h) (codes "session_windows") ≡ some (itoa h.windows)
unfolding lookup bytes_eq
found_windows h = refl

found_created : (h : Held) → lookup (row h) (codes "session_created") ≡ some (itoa h.created)
unfolding lookup bytes_eq
found_created h = refl

found_activity : (h : Held) → lookup (row h) (codes "session_activity") ≡ some (itoa h.activity)
unfolding lookup bytes_eq
found_activity h = refl

found_attached : (h : Held) → lookup (row h) (codes "session_attached") ≡ some (itoa h.attached)
unfolding lookup bytes_eq
found_attached h = refl

session_from_row-row :
    (v : Version) (h : Held)
    → IsHeld v h
    → session_from_row (row h) ≡ value (record (session_of h) { name = kept v h.name })
unfolding session_from_row
session_from_row-row v h k =
    rw
      (
        row_session_id_valid (row h) _ h.id (found_id h) k.identified,
        row_int-itoa (row h) _ h.windows (found_windows h) k.windows_fit,
        row_time-itoa (row h) _ h.created (found_created h) k.created_fit,
        row_time-itoa (row h) _ h.activity (found_activity h) k.activity_fit,
        row_int-itoa (row h) _ h.attached (found_attached h) k.attached_fit,
        found_name h,
        vis_decode-Escapes (kept v h.name) h.escaped k.named,
      )
      refl

abbrev pub sessions_of : List Held → List Session
sessions_of [] = []
sessions_of (h ∷ hs) = session_of h ∷ sessions_of hs

abbrev pub values_list : List Held → List Values
values_list [] = []
values_list (h ∷ hs) = values_of h ∷ values_list hs

visible_no_tab : (s : Bytes) → IsVisible s → Lacks b'\t' s
visible_no_tab [] h = tt
visible_no_tab (c ∷ s) h = (omega arith, visible_no_tab s h.1)

digits-IsVisible : (s : Bytes) → all_digits s ≡ true → IsVisible s
unfolding all_digits is_digit
digits-IsVisible [] h = tt
digits-IsVisible (c ∷ s) h = ground (arith, digits-IsVisible s)

id-IsVisible : (s : Bytes) → valid_id s session_sigil ≡ true → IsVisible s
unfolding valid_id
id-IsVisible [] h = tt
id-IsVisible (c ∷ []) h = ground arith
id-IsVisible (c ∷ d ∷ s) h = ground (arith, digits-IsVisible (d ∷ s))

join-IsOneLine : (ps : List Bytes) → All IsOneLine ps → IsOneLine (join (b'\t' ∷ []) ps)
unfolding join
join-IsOneLine [] h = tt
join-IsOneLine (p ∷ []) h = h.0
join-IsOneLine (p ∷ q ∷ ps) h =
    All-append _ p _ h.0 ((omega arith, omega arith), join-IsOneLine (q ∷ ps) h.1)

printed-IsOneLine : (v : Version) (h : Held) → IsHeld v h → IsOneLine (printed (values_of h))
printed-IsOneLine v h k =
    let n = λ (i : ℤ). visible-IsOneLine (itoa i) (itoa-visible i) in
    join-IsOneLine (values (values_of h)) (
      visible-IsOneLine h.id (id-IsVisible h.id k.identified),
      (
        visible-IsOneLine h.escaped (Escapes-visible _ _ k.named),
        (n h.windows, (n h.created, (n h.activity, (n h.attached, tt)))),
      ),
    )

lines-IsOneLine :
    (v : Version) (hs : List Held)
    → All (IsHeld v) hs
    → All IsOneLine (map printed (values_list hs))
lines-IsOneLine v [] k = tt
lines-IsOneLine v (h ∷ hs) k = (printed-IsOneLine v h k.0, lines-IsOneLine v hs k.1)

values-IsRow : (v : Version) (h : Held) → IsHeld v h → IsRow session_spec (values_of h)
values-IsRow v h k =
    let n = λ (i : ℤ). visible_no_tab (itoa i) (itoa-visible i) in
    record {
      width = refl;
      no_tab = (
        visible_no_tab h.id (id-IsVisible h.id k.identified),
        (
          visible_no_tab h.escaped (Escapes-visible _ _ k.named),
          (n h.windows, (n h.created, (n h.activity, tt))),
        ),
      );
    }

list-IsRow :
    (v : Version) (hs : List Held) → All (IsHeld v) hs → All (IsRow session_spec) (values_list hs)
list-IsRow v [] k = tt
list-IsRow v (h ∷ hs) k = (values-IsRow v h k.0, list-IsRow v hs k.1)

module _ {W : Type 0} (out : Outside W) (cfg : Config) where
  read_sessions_value :
      (r : Row) (rs : List Row) (s : Session) (c : Client W)
      → session_from_row r ≡ value s
      → (read_sessions out cfg (r ∷ rs) c).1
        ≡ ((do
          name ← decode_stored out cfg s.name
          rest ← read_sessions out cfg rs
          done (record s { name = name } ∷ rest))
            c).1
  unfolding read_sessions
  read_sessions_value r rs s c e = rw (read_sessions, e) refl

  read_sessions-cons :
      (r : Row) (rs : List Row) (s : Session) (ss : List Session) (name : Bytes) (c c' : Client W)
      → session_from_row r ≡ value s
      → decode_stored out cfg {R = Refusal} s.name c ≡ (c', ok name)
      → (read_sessions out cfg rs c').1 ≡ ok ss
      → (read_sessions out cfg (r ∷ rs) c).1 ≡ ok (record s { name = name } ∷ ss)
  read_sessions-cons r rs s ss name c c' e first rest =
      let whole = ap (λ t. ((read_sessions out cfg rs c').0, t)) rest in
      let onto =
        λ (n : Bytes) (more : List Session). done {R = Refusal} (record s { name = n } ∷ more) in
      read_sessions_value r rs s c e
      ∙ ap (λ x. (and_then x (λ n. read_sessions out cfg rs >>= onto n)).1) first
      ∙ ap (λ x. (and_then x (onto name)).1) whole

  read_sessions-rows :
      (v : Version) (hs : List Held) (c : Client W)
      → (tmux_version out cfg c).1 ≡ v
      → All (IsHeld v) hs
      → (read_sessions out cfg (map (row_of session_spec) (values_list hs)) c).1
        ≡ ok (sessions_of hs)
  read_sessions-rows v [] c a k = unfold read_sessions in refl
  read_sessions-rows v (h ∷ hs) c a k =
      let once = ap (λ r. r.1) (tmux_version_once out cfg c) ∙ a in
      let rest = read_sessions-rows v hs (tmux_version out cfg c).0 once k.1 in
      let first = decode_stored-kept out cfg {R = Refusal} c v h.name a in
      read_sessions-cons (row h) (map (row_of session_spec) (values_list hs))
        (record (session_of h) { name = kept v h.name }) (sessions_of hs) h.name c
        (tmux_version out cfg c).0 (session_from_row-row v h k.0) first rest

  abbrev pub listing : List Bytes
  listing = codes "list-sessions" ∷ codes "-F" ∷ arg session_spec ∷ []

  list_from_rows :
      (c c' : Client W) (rs : List Row) (ss : List Session)
      → query_args out cfg session_spec (codes "list-sessions" ∷ []) c ≡ (c', ok rs)
      → (read_sessions out cfg rs c').1 ≡ ok ss
      → (list_sessions out cfg c).1 ≡ ok ss
  unfolding list_sessions query
  list_from_rows c c' rs ss q r = rw q r

  -- For a client that is to find this version of tmux, and sessions with well-formed identifiers,
  -- numbers of 64 bits and escaped names: where tmux prints a row for each, ListSessions returns
  -- these sessions, in order.
  pub list_sessions-printed :
      (c c' : Client W) (v : Version) (hs : List Held)
      → All (IsHeld v) hs
      → Prints out cfg listing c c' (written (ended (map printed (values_list hs))))
      → (tmux_version out cfg c').1 ≡ v
      → (list_sessions out cfg c).1 ≡ ok (sessions_of hs)
  list_sessions-printed c c' v hs k p a =
      let q =
        query-printed out cfg c c' (codes "list-sessions" ∷ []) _ _ (values_list hs)
          (list-IsRow v hs k) (lines-IsOneLine v hs k) p in
      list_from_rows c c' (map (row_of session_spec) (values_list hs)) (sessions_of hs) q
        (read_sessions-rows v hs c' a k)
