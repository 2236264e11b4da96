-- ===== src/Client/Run/Once.antt =====
-- client.go: what a command that succeeds returns, and the version that decides how values are read.
use gotmucks.Base.{
  List, ◌≡◌, refl, ap, arith, Bytes, Option, none, some, if◌then◌else◌, Bool-cases, inl, inr,
}
use gotmucks.Config.{Config}
use gotmucks.Client.{split_lines}
use gotmucks.Client.Dollar.{stored, undo_dollar_escape-stored}
use gotmucks.Version.{Version, escapes_dollar_on_write}
use gotmucks.Client.Run.{
  Outside, Client, Finished, ok, succeeded, and_then, done, invocation, outcome, run, run_lines,
  tmux_version, known, ask, asked, decode_stored,
}

-- The form in which this version of tmux holds a value that it was given.
unfoldable pub kept : Version → Bytes → Bytes
kept v s = if escapes_dollar_on_write v then stored s else s

module _ {W : Type 0} (out : Outside W) (cfg : Config) where
  -- Running these arguments succeeds with this output.
  pub record Prints (args : List Bytes) (c c' : Client W) (stdout : Bytes) : Type 0 where
    pub finished : Finished
    pub ran : out.exec c.world (invocation out cfg args) ≡ (c'.world, finished)
    pub same : c'.version ≡ c.version
    pub success : finished.ended ≡ succeeded
    pub printed : finished.stdout ≡ stdout

  pub run-Prints :
      {R : Type 0} {c c' : Client W} (args : List Bytes) (s : Bytes)
      → Prints args c c' s
      → run out cfg {R = R} args c ≡ (c', ok s)
  unfolding run outcome
  run-Prints args s p = ground (arith, p.ran, p.same, p.success, p.printed)

  pub run_lines-Prints :
      {R : Type 0} {c c' : Client W} (args : List Bytes) (s : Bytes)
      → Prints args c c' s
      → run_lines out cfg {R = R} args c ≡ (c', ok (split_lines s))
  unfolding run_lines
  run_lines-Prints {R} args s p =
      ap (λ r. and_then r (λ o. done (split_lines o))) (run-Prints {R = R} args s p)

  ask_known : (c : Client W) → (ask out cfg c).0.version ≡ some (ask out cfg c).1
  unfolding ask asked
  ask_known c = refl

  known_once :
      (c : Client W) (o : Option Version)
      → c.version ≡ o
      → (known out cfg c o).0.version ≡ some (known out cfg c o).1
  unfolding known
  known_once c (some v) h = h
  known_once c none h = ask_known c

  -- A client that has its version asks for it no more.
  pub tmux_version_once :
      (c : Client W)
      → tmux_version out cfg (tmux_version out cfg c).0
        ≡ ((tmux_version out cfg c).0, (tmux_version out cfg c).1)
  unfolding tmux_version known
  tmux_version_once c = rw (known_once c c.version refl) refl

  pub decode_stored-kept :
      {R : Type 0} (c : Client W) (v : Version) (s : Bytes)
      → (tmux_version out cfg c).1 ≡ v
      → decode_stored out cfg {R = R} (kept v s) c ≡ ((tmux_version out cfg c).0, ok s)
  unfolding decode_stored kept
  decode_stored-kept c v s h = elim (Bool-cases (escapes_dollar_on_write v)) [
    | inl e ↦ rw (h, e, undo_dollar_escape-stored s) refl
    | inr e ↦ rw (h, e) refl
  ]
