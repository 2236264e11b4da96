-- ===== src/TmuxOptions/Listing.antt =====
-- tmuxopts.go: the lines of options, as the source says tmux prints them.
use gotmucks.Base.{
  ℕ, suc, ◌<◌, ◌≢◌, ◌≡◌, arith, List, [], ◌∷◌, ◌++◌, Bytes, All, All-append, Lacks, contains_byte,
  none,
}
use gotmucks.Dict.{Dict}
use gotmucks.Version.{Version}
use gotmucks.Client.{split_lines}
use gotmucks.Client.Dollar.{stored}
use gotmucks.Client.Lines.{written}
use gotmucks.Client.Visible.{IsVisible, ended, split_lines-visible}
use gotmucks.Client.Run.Once.{kept}
use gotmucks.Vis.Escapes.{Escapes-visible}
use gotmucks.TmuxOptions.{check_option_name, name_from}
use gotmucks.TmuxOptions.Value.{Prefixed, plain, tilde, Printed, bare, quoted, single}

-- The line of an option, whose name is one that this package sets.
pub data Shown (v : Version) : Bytes → Bytes → Bytes → Type 0 where
  valued :
      (name value p : Bytes)
      → check_option_name name ≡ none
      → Printed (kept v value) p
      → Shown v name value (kept v name ++ b' ' ∷ p)
  flag : (name : Bytes) → check_option_name name ≡ none → Shown v name [] (kept v name)

-- The lines of these options, in order.
pub data Listing (v : Version) : Dict → List Bytes → Type 0 where
  nil : Listing v [] []
  cons :
      (name value line : Bytes) (opts : Dict) (lines : List Bytes)
      → Shown v name value line
      → Listing v opts lines
      → Listing v ((name, value) ∷ opts) (line ∷ lines)

abbrev pub IsDense : Bytes → Type 0
IsDense = All (λ c. b' ' < c)

Prefixed-IsVisible : (v e : Bytes) → Prefixed v e → IsVisible e
Prefixed-IsVisible v e (plain _ _ h) = Escapes-visible v e h
Prefixed-IsVisible v e (tilde w u h) = (omega arith, (omega arith, Escapes-visible w u h))

Printed-IsVisible : (v p : Bytes) → Printed v p → IsVisible p
unfolding contains_byte
Printed-IsVisible v p (bare _ _ h b) = Prefixed-IsVisible v p h
Printed-IsVisible v p (quoted q _ e k h) =
    (ground arith, All-append _ e (q ∷ []) (Prefixed-IsVisible v e h) (ground arith))
Printed-IsVisible v p (single c h) = ground arith

name_from-IsDense : (i : ℕ) (s : Bytes) → name_from i s ≡ none → IsDense s
unfolding name_from
name_from-IsDense i [] h = tt
name_from-IsDense i (c ∷ s) h = ground (arith, name_from-IsDense (suc i) s)

name-IsDense : (s : Bytes) → check_option_name s ≡ none → IsDense s × (s ≢ [])
unfolding check_option_name
name-IsDense [] h = ground arith
name-IsDense (c ∷ s) h = (name_from-IsDense 0 (c ∷ s) h, ground arith)

stored-IsDense : (s : Bytes) → IsDense s → IsDense (stored s)
unfolding stored
stored-IsDense [] h = tt
stored-IsDense (c ∷ []) h = h
stored-IsDense (c ∷ d ∷ s) h = ground (arith, stored-IsDense (d ∷ s))

stored-ne-nil : (s : Bytes) → s ≢ [] → stored s ≢ []
unfolding stored
stored-ne-nil [] n = n
stored-ne-nil (c ∷ []) n = ground arith
stored-ne-nil (c ∷ d ∷ s) n = ground arith

pub kept-name :
    (v : Version) (s : Bytes) → check_option_name s ≡ none → IsDense (kept v s) × (kept v s ≢ [])
unfolding kept
kept-name v s h =
    let d = name-IsDense s h in ground (arith, stored-IsDense s d.0, stored-ne-nil s d.1)

pub dense-Lacks : (s : Bytes) → IsDense s → Lacks b' ' s
dense-Lacks [] h = tt
dense-Lacks (c ∷ s) h = (omega arith, dense-Lacks s h.1)

dense-IsVisible : (s : Bytes) → IsDense s → IsVisible s
dense-IsVisible [] h = tt
dense-IsVisible (c ∷ s) h = (omega arith, dense-IsVisible s h.1)

Shown-IsVisible : (v : Version) (name value line : Bytes) → Shown v name value line → IsVisible line
Shown-IsVisible v name value line (valued _ _ p h q) =
    All-append _ (kept v name) (b' ' ∷ p) (dense-IsVisible (kept v name) (kept-name v name h).0)
      (omega arith, Printed-IsVisible (kept v value) p q)
Shown-IsVisible v name value line (flag _ h) = dense-IsVisible (kept v name) (kept-name v name h).0

Listing-IsVisible : (v : Version) (es : Dict) (ls : List Bytes) → Listing v es ls → All IsVisible ls
Listing-IsVisible v es ls nil = tt
Listing-IsVisible v es ls (cons name value line more rest s l) =
    (Shown-IsVisible v name value line s, Listing-IsVisible v more rest l)

pub split_lines-Listing :
    (v : Version) (es : Dict) (ls : List Bytes)
    → Listing v es ls
    → split_lines (written (ended ls)) ≡ ls
split_lines-Listing v es ls h = split_lines-visible ls (Listing-IsVisible v es ls h)
