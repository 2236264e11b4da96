-- ===== src/Tests/Scripted.antt =====
-- A tmux whose outputs are given, for the runs of the other test modules.
use gotmucks.Base.{◌≡◌, refl, List, [], ◌∷◌, Bytes, none, some, codes}
use gotmucks.Base.Int.{pos}
use gotmucks.Config.{default_config}
use gotmucks.Version.{Version, version_zero}
use gotmucks.Client.Run.{Outside, Finished, Client, succeeded, exited, tmux_version}
use gotmucks.Client.Run.Once.{Prints}

abbrev pub printed_only : Bytes → Finished
printed_only s = record { stdout = s; stderr = []; ended = succeeded; context_error = none }

abbrev next_output : List Bytes → List Bytes × Finished
next_output [] = ([], printed_only [])
next_output (o ∷ os) = (os, printed_only o)

-- A tmux that prints these outputs, one for each run, and succeeds.
abbrev pub scripted : Outside (List Bytes)
scripted = record { exec = λ w i. next_output w; parent_env = []; unicode_lower = λ s. s }

-- A tmux that fails with this message.
abbrev pub failing : Bytes → Outside (List Bytes)
failing message = record {
  exec = λ w i.
      (w, record { stdout = []; stderr = message; ended = exited (pos 1); context_error = none });
  parent_env = [];
  unicode_lower = λ s. s;
}

-- tmux 3.4, which holds dollar signs behind backslashes.
abbrev pub tmux_3_4 : Version
tmux_3_4 = record (version_zero (codes "tmux 3.4")) { major = pos 3; minor = pos 4 }

abbrev pub client : List Bytes → Client (List Bytes)
client os = record { world = os; version = some tmux_3_4 }

pub asks_3_4 : (tmux_version scripted default_config (client [])).1 ≡ tmux_3_4
unfolding tmux_version
asks_3_4 = refl

pub prints :
    (args : List Bytes) (stdout : Bytes) (more : List Bytes)
    → Prints scripted default_config args (client (stdout ∷ more)) (client more) stdout
prints args stdout more = record {
  finished = printed_only stdout;
  ran = refl;
  same = refl;
  success = refl;
  printed = refl;
}
