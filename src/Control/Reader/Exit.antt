-- ===== src/Control/Reader/Exit.antt =====
-- Which lines end the reader (control_reader.go).
use gotmucks.Base.{
  Bool, true, false, not, ◌&&◌, ◌||◌, List, [], ◌∷◌, ◌++◌, ◌≡◌, ◌↔◌, ◌⊎◌, inl, inr, refl, sym, ap,
  ◌∙◌, arith, Bytes, Option, none, some, codes, bytes_eq, bytes_eq_iff, Bool-cases,
}
use gotmucks.Ctlparse.{Line, notification, classify}
use gotmucks.Ctlparse.Shape.{IsNotification, classify-found, classify-IsNotification_iff}
use gotmucks.Control.Notify.{Case, exit_case, cases, find_case, run_case, handle_notification}
use gotmucks.Control.Reader.{note_first_line, dispatch, handle_line}
use gotmucks.Control.{Conn, Pending}

is_exit : Case → Bool
is_exit exit_case = true
is_exit _ = false

-- Every entry of the exit case has the name `exit`.
only_exit : List (Bytes × Case) → Bool
unfolding is_exit bytes_eq
only_exit [] = true
only_exit ((n, c) ∷ cs) = (not (is_exit c) || bytes_eq n (codes "exit")) && only_exit cs

find_case-exit :
    (name : Bytes) (cs : List (Bytes × Case))
    → only_exit cs ≡ true
    → is_exit (find_case name cs) ≡ true
    → name ≡ codes "exit"
unfolding find_case is_exit only_exit
find_case-exit name [] o h = absurd (ground (arith, h))
find_case-exit name ((n, c) ∷ cs) o h = elim (Bool-cases (bytes_eq name n)) [
  | inl e ↦ (bytes_eq_iff name n).0 e ∙ (bytes_eq_iff n (codes "exit")).0 (ground (arith, o, h, e))
  | inr e ↦ find_case-exit name cs (ground (arith, o)) (ground (arith, h, e))
]

cases-only_exit : only_exit cases ≡ true
unfolding only_exit is_exit bytes_eq
cases-only_exit = refl

exit_found : is_exit (find_case (codes "exit") cases) ≡ true
unfolding find_case bytes_eq is_exit
exit_found = refl

run_case-more : (c : Case) (cc : Conn) (cl : Line) → (run_case c cc cl).1 ≡ not (is_exit c)
unfolding run_case is_exit
run_case-more exit_case cc cl = refl
run_case-more _ cc cl = refl

notification-more :
    (cc : Conn) (cl : Line)
    → (handle_notification cc cl).1 ≡ not (is_exit (find_case cl.name cases))
unfolding handle_notification
notification-more cc cl = run_case-more (find_case cl.name cases) cc cl

dispatch-stops :
    (o : Option Pending) (cc : Conn) (cl : Line) (line : Bytes) (first : Bool)
    → (dispatch o cc cl line first).1 ≡ false
    → (o ≡ none) × (cl.kind ≡ notification) × (is_exit (find_case cl.name cases) ≡ true)
unfolding dispatch
dispatch-stops (some p) cc cl line first h = absurd (ground (arith, h))
dispatch-stops none cc cl line first h = ground (arith, h, notification-more cc cl)

dispatch-exit :
    (o : Option Pending) (cc : Conn) (cl : Line) (line : Bytes) (first : Bool)
    → o ≡ none
    → cl.kind ≡ notification
    → cl.malformed ≡ false
    → is_exit (find_case cl.name cases) ≡ true
    → (dispatch o cc cl line first).1 ≡ false
unfolding dispatch
dispatch-exit (some p) cc cl line first n k m e = absurd (ground (arith, n))
dispatch-exit none cc cl line first n k m e = ground (arith, k, m, e, notification-more cc cl)

note_first_line-current : (cc : Conn) (cl : Line) → (note_first_line cc cl).current ≡ cc.current
unfolding note_first_line
note_first_line-current cc cl = ground arith

-- The text `%exit`, alone or before a space and a reason.
abbrev pub IsExit : Bytes → Type 0
IsExit line = (line ≡ codes "%exit") ⊎ ((reason : Bytes) × (line ≡ codes "%exit " ++ reason))

exit-IsNotification :
    (line : Bytes) → IsExit line → (reason : Bytes) × IsNotification line (codes "exit") reason
exit-IsNotification line (inl e) = (
  [],
  record {
    letters = ground arith;
    no_begin = ground arith;
    no_end = ground arith;
    no_error = ground arith;
    form = inl (e, refl);
  },
)
exit-IsNotification line (inr (reason, e)) = (
  reason,
  record {
    letters = ground arith;
    no_begin = ground arith;
    no_end = ground arith;
    no_error = ground arith;
    form = inr e;
  },
)

IsNotification-IsExit :
    (line name args : Bytes) → IsNotification line name args → name ≡ codes "exit" → IsExit line
IsNotification-IsExit line name args n e = elim n.form [
  | inl (p, _) ↦ inl (p ∙ ap (◌∷◌ b'%') e)
  | inr p ↦ inr (args, p ∙ ap (λ t. b'%' ∷ t ++ b' ' ∷ args) e)
]

-- The reader stops at a line exactly if no block is open and the line is %exit, alone or before a
-- space and a reason.
pub handle_line_stops_iff :
    (cc : Conn) (line : Bytes)
    → ((handle_line cc line).1 ≡ false) ↔ ((cc.current ≡ none) × IsExit line)
unfolding handle_line
handle_line_stops_iff cc line = (
  (λ h.
      let noted = note_first_line cc (classify line) in
      let (o, k, e) = dispatch-stops noted.current noted (classify line) line _ h in
      let (name, args, is, c) = classify-found line k in
      let named = sym (ap (λ l. l.name) c) ∙ find_case-exit _ cases cases-only_exit e in
      (
        sym (note_first_line-current cc (classify line)) ∙ o,
        IsNotification-IsExit line name args is named,
      )),
  (λ (o, x).
      let (reason, is) = exit-IsNotification line x in
      let c = (classify-IsNotification_iff line (codes "exit") reason).1 is in
      let noted = note_first_line cc (classify line) in
      dispatch-exit noted.current noted (classify line) line _
        (note_first_line-current cc (classify line) ∙ o) (ap (λ l. l.kind) c)
        (ap (λ l. l.malformed) c) (ap (λ l. is_exit (find_case l.name cases)) c ∙ exit_found)),
)
