-- ===== src/TmuxOptions/Single.antt =====
-- `ShowOption` of tmuxopts.go.
use gotmucks.Base.{
  ℕ, suc, true, false, ◌<◌, ◌≢◌, ◌≡◌, ◌+◌, refl, ap, ◌∙◌, arith, List, [], ◌∷◌, ◌++◌, Bytes, none,
  if◌then◌else◌, ◌==◌, bytes_eq_iff, bytes_eq_self, length, Lacks,
}
use gotmucks.Strings.{cut-append, cut_none}
use gotmucks.Ids.{Target, check_target}
use gotmucks.Config.{Config}
use gotmucks.Version.{Version}
use gotmucks.Client.{split_lines}
use gotmucks.Client.Dollar.{stored}
use gotmucks.Client.Lines.{written}
use gotmucks.Client.Visible.{ended}
use gotmucks.Client.Run.{Outside, Client, ok, err, refused, tmux_version, decode_stored}
use gotmucks.Client.Run.Once.{kept, Prints, run_lines-Prints, decode_stored-kept}
use gotmucks.TmuxOptions.{
  OptionScope, OptionError, array_of, check_option_name, show_args, is_array_element,
  split_array_element, shown, shown_line, show_option,
}
use gotmucks.TmuxOptions.Value.{unquote-Printed}
use gotmucks.TmuxOptions.Listing.{
  Shown, valued, flag, nil, cons, kept-name, dense-Lacks, split_lines-Listing,
}
use gotmucks.TmuxOptions.Elements.{Element, split_array_element_iff}

append-cons-ne-nil : (x : ℕ) (s t : Bytes) → s ++ x ∷ t ≢ []
append-cons-ne-nil x [] t = ground arith
append-cons-ne-nil x (c ∷ s) t = ground arith

-- How often an opening bracket occurs.
brackets : Bytes → ℕ
brackets [] = 0
brackets (c ∷ s) = let rest = brackets s in if c == b'[' then suc rest else rest

brackets-append : (s t : Bytes) → brackets (s ++ t) ≡ brackets s + brackets t
unfolding brackets
brackets-append [] t = ground arith
brackets-append (c ∷ s) t = ground (arith, brackets-append s t)

brackets-stored : (s : Bytes) → brackets (stored s) ≡ brackets s
unfolding brackets stored
brackets-stored [] = refl
brackets-stored (c ∷ []) = refl
brackets-stored (c ∷ d ∷ s) = ground (arith, brackets-stored (d ∷ s))

brackets-kept : (v : Version) (s : Bytes) → brackets (kept v s) ≡ brackets s
unfolding kept
brackets-kept v s = ground (arith, brackets-stored s)

Element-brackets : (base printed : Bytes) → Element base printed → brackets base < brackets printed
unfolding brackets
Element-brackets base printed e = rw (ap brackets e.form ∙ brackets-append base _) (omega arith)

kept-not_split : (v : Version) (name : Bytes) → split_array_element (kept v name) ≢ (name, true)
kept-not_split v name h =
    let e =
      Element-brackets name (kept v name) ((split_array_element_iff (kept v name) name).0 h) in
    let k = brackets-kept v name in absurd (omega arith)

-- An option's own name is none of its elements.
kept-not_element : (v : Version) (name : Bytes) → is_array_element (kept v name) name ≡ false
unfolding is_array_element
kept-not_element v name =
    let n = kept-not_split v name in
    ground (arith, bytes_eq_iff (split_array_element (kept v name)).0 name)

Shown-ne-nil : (v : Version) (name value line : Bytes) → Shown v name value line → line ≢ []
Shown-ne-nil v name value line (valued _ _ p h q) e = append-cons-ne-nil b' ' (kept v name) p e
Shown-ne-nil v name value line (flag _ h) e = (kept-name v name h).1 e

Element-ne-nil : (name : Bytes) → ¬ Element name []
unfolding brackets
Element-ne-nil name e = let b = Element-brackets name [] e in omega arith

module _ {W : Type 0} (out : Outside W) (cfg : Config) where
  shown_line-Shown :
      (c : Client W) (v : Version) (n : ℕ) (name value line : Bytes)
      → (tmux_version out cfg c).1 ≡ v
      → Shown v name value line
      → (shown_line out cfg name n line c).1 ≡ ok (value, true)
  unfolding shown_line
  shown_line-Shown c v n name value line a (valued _ _ p h q) =
      let k = kept-name v name h in
      let e =
        ap (λ t. decode_stored out cfg {R = OptionError} t c) (unquote-Printed (kept v value) p q)
        ∙ decode_stored-kept out cfg c v value a in
      rw (cut-append b' ' (kept v name) p (dense-Lacks (kept v name) k.0), kept-not_element v name)
        (ground (arith, e))
  shown_line-Shown c v n name value line a (flag _ h) =
      let k = kept-name v name h in
      rw (cut_none b' ' (kept v name) (dense-Lacks (kept v name) k.0), kept-not_element v name) refl

  shown-Shown :
      (c : Client W) (v : Version) (name value line : Bytes)
      → (tmux_version out cfg c).1 ≡ v
      → Shown v name value line
      → (shown out cfg name (ok (line ∷ [])) c).1 ≡ ok (value, true)
  unfolding shown
  shown-Shown c v name value [] a s = absurd (Shown-ne-nil v name value [] s refl)
  shown-Shown c v name value (x ∷ line) a s = shown_line-Shown c v 1 name value (x ∷ line) a s

  -- For a name and a target that pass their checks and a client that is to find this version of
  -- tmux: where tmux prints the option's line, in any of the forms a value has, ShowOption returns
  -- the value and that it is set.
  pub show_option-Shown :
      (c c' : Client W) (v : Version) (t : Target) (scope : OptionScope) (name value line : Bytes)
      → check_option_name name ≡ none
      → check_target t ≡ none
      → Shown v name value line
      → Prints out cfg (show_args t scope name) c c' (written (ended (line ∷ [])))
      → (tmux_version out cfg c').1 ≡ v
      → (show_option out cfg t scope name c).1 ≡ ok (value, true)
  unfolding show_option
  show_option-Shown c c' v t scope name value line hn ht s p a =
      let lines = split_lines-Listing v _ _ (cons name value line [] [] s nil) in
      rw (hn, ht, run_lines-Prints out cfg {R = OptionError} (show_args t scope name) _ p, lines)
        (shown-Shown c' v name value line a s)

  shown_array :
      (c : Client W) (name key rest : Bytes) (lines : List Bytes)
      → Element name key
      → Lacks b' ' key
      → (shown out cfg name (ok ((key ++ b' ' ∷ rest) ∷ lines)) c).1
        ≡ err (refused (array_of (suc (length lines))))
  unfolding shown shown_line is_array_element
  shown_array c name [] rest lines h k = absurd (Element-ne-nil name h)
  shown_array c name (x ∷ key) rest lines h k =
      let e = (split_array_element_iff (x ∷ key) name).1 h in
      rw (cut-append b' ' (x ∷ key) rest k, e, bytes_eq_self name) refl

  -- For a name and a target that pass their checks: where the first line that tmux prints is an
  -- element of the option, ShowOption returns an error with the number of lines, and no value.
  pub show_option_array :
      (c c' : Client W) (t : Target) (scope : OptionScope) (name key rest stdout : Bytes)
      (lines : List Bytes)
      → check_option_name name ≡ none
      → check_target t ≡ none
      → Element name key
      → Lacks b' ' key
      → split_lines stdout ≡ (key ++ b' ' ∷ rest) ∷ lines
      → Prints out cfg (show_args t scope name) c c' stdout
      → (show_option out cfg t scope name c).1 ≡ err (refused (array_of (suc (length lines))))
  unfolding show_option
  show_option_array c c' t scope name key rest stdout lines hn ht h k l p =
      rw (hn, ht, run_lines-Prints out cfg {R = OptionError} (show_args t scope name) _ p, l)
        (shown_array c' name key rest lines h k)
