-- ===== src/TmuxOptions/Reading.antt =====
-- `ShowOptions` of tmuxopts.go, on the lines of `Listing`.
use gotmucks.Base.{◌≢◌, ◌≡◌, refl, ap, ◌∙◌, arith, List, [], ◌∷◌, ◌++◌, Bytes, none}
use gotmucks.Strings.{cut-append, cut_none}
use gotmucks.Ids.{Target, check_target}
use gotmucks.Dict.{Dict, put, puts, last_of, look, look-puts, look-none}
use gotmucks.Config.{Config}
use gotmucks.Version.{Version}
use gotmucks.Client.Lines.{written}
use gotmucks.Client.Visible.{ended}
use gotmucks.Client.Run.{Outside, Client, ok, tmux_version, decode_stored}
use gotmucks.Client.Run.Once.{kept, Prints, run_lines-Prints, tmux_version_once, decode_stored-kept}
use gotmucks.TmuxOptions.{
  OptionScope, OptionError, unquote_option_value, list_args, read_option, read_options, listed,
  show_options,
}
use gotmucks.TmuxOptions.Listing.{
  Shown, valued, flag, Listing, nil, cons, kept-name, IsDense, dense-Lacks, split_lines-Listing,
}
use gotmucks.TmuxOptions.Value.{unquote-Printed}

module _ {W : Type 0} (out : Outside W) (cfg : Config) where
  abbrev Asks : Client W → Version → Type 0
  Asks c v = (tmux_version out cfg c).1 ≡ v

  -- The client after it has asked for the version.
  abbrev after : Client W → Client W
  after c = (tmux_version out cfg c).0

  Asks-after : (c : Client W) (v : Version) → Asks c v → Asks (after c) v
  Asks-after c v h = ap (λ r. r.1) (tmux_version_once out cfg c) ∙ h

  after_once : (c : Client W) → after (after c) ≡ after c
  after_once c = ap (λ r. r.0) (tmux_version_once out cfg c)

  read-valued :
      (c : Client W) (v : Version) (key name value p : Bytes) (opts : Dict)
      → Asks c v
      → IsDense key
      → key ≢ []
      → key ≡ kept v name
      → unquote_option_value p ≡ kept v value
      → read_option out cfg (key ++ b' ' ∷ p) opts c ≡ (after c, ok (put name value opts))
  unfolding read_option
  read-valued c v [] name value p opts a d n k u = absurd (n refl)
  read-valued c v (x ∷ key) name value p opts a d n k u =
      let first =
        ap (λ t. decode_stored out cfg {R = OptionError} t c) k
        ∙ decode_stored-kept out cfg c v name a in
      let second =
        ap (λ t. decode_stored out cfg {R = OptionError} t (after c)) u
        ∙ decode_stored-kept out cfg (after c) v value (Asks-after c v a)
        ∙ ap (λ t. (t, ok value)) (after_once c) in
      rw (cut-append b' ' (x ∷ key) p (dense-Lacks (x ∷ key) d)) (ground (arith, first, second))

  read-flag :
      (c : Client W) (v : Version) (key name : Bytes) (opts : Dict)
      → Asks c v
      → IsDense key
      → key ≢ []
      → key ≡ kept v name
      → read_option out cfg key opts c ≡ (after c, ok (put name [] opts))
  unfolding read_option
  read-flag c v [] name opts a d n k = absurd (n refl)
  read-flag c v (x ∷ key) name opts a d n k =
      let first =
        ap (λ t. decode_stored out cfg {R = OptionError} t c) k
        ∙ decode_stored-kept out cfg c v name a in
      rw (cut_none b' ' (x ∷ key) (dense-Lacks (x ∷ key) d)) (ground (arith, first))

  read-Shown :
      (c : Client W) (v : Version) (name value line : Bytes) (opts : Dict)
      → Asks c v
      → Shown v name value line
      → read_option out cfg line opts c ≡ (after c, ok (put name value opts))
  read-Shown c v name value line opts a (valued _ _ p h q) =
      let k = kept-name v name h in
      read-valued c v (kept v name) name value p opts a k.0 k.1 refl
        (unquote-Printed (kept v value) p q)
  read-Shown c v name value line opts a (flag _ h) =
      let k = kept-name v name h in read-flag c v (kept v name) name opts a k.0 k.1 refl

  read-Listing :
      (v : Version) (c : Client W) (es opts : Dict) (lines : List Bytes)
      → Asks c v
      → Listing v es lines
      → (read_options out cfg lines opts c).1 ≡ ok (puts es opts)
  unfolding read_options
  read-Listing v c es opts lines a nil = refl
  read-Listing v c es opts lines a (cons name value line more rest s l) =
      rw (read-Shown c v name value line opts a s)
        (read-Listing v (after c) more (put name value opts) rest (Asks-after c v a) l)

  -- For a target that passes its check and a client that is to find this version of tmux: where the
  -- options that tmux prints, in any of the forms a value has, are options whose names pass their
  -- check, ShowOptions succeeds and has for each name the value of the last line with that name,
  -- and no other name.
  pub show_options-Listing :
      (c c' : Client W) (v : Version) (t : Target) (scope : OptionScope) (es : Dict)
      (lines : List Bytes)
      → check_target t ≡ none
      → Listing v es lines
      → Prints out cfg (list_args t scope) c c' (written (ended lines))
      → Asks c' v
      → (opts : Dict) × ((show_options out cfg t scope c).1 ≡ ok opts)
        × ((name : Bytes) → look name opts ≡ last_of name es none)
  unfolding show_options listed
  show_options-Listing c c' v t scope es lines ht hl hp a = (
    puts es [],
    rw
        (
          ht,
          run_lines-Prints out cfg {R = OptionError} (list_args t scope) _ hp,
          split_lines-Listing v es lines hl,
        )
        (read-Listing v c' es [] lines a hl),
    λ name. look-puts name es [] ∙ ap (last_of name es) (look-none name),
  )
