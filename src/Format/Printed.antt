-- ===== src/Format/Printed.antt =====
-- `QueryArgs` of format.go, on the rows that tmux prints.
use gotmucks.Base.{◌≡◌, refl, List, [], ◌∷◌, ◌++◌, Bytes, All, map, codes}
use gotmucks.Config.{Config}
use gotmucks.Client.Lines.{written}
use gotmucks.Client.Visible.{IsOneLine, ended, split_lines-ended}
use gotmucks.Client.Run.{Outside, Client, ok}
use gotmucks.Client.Run.Once.{Prints, run_lines-Prints}
use gotmucks.Format.{FormatSpec, arg}
use gotmucks.Format.Rows.{Values, printed, row_of, IsRow, parse_rows-printed}
use gotmucks.Format.Query.{Refusal, query_args}

module _ {W : Type 0} (out : Outside W) (cfg : Config) where
  -- Rows that are printed for a specification, on a line each, are the rows found.
  pub query-printed :
      (c c' : Client W) (args : List Bytes) (f : Bytes) (spec : FormatSpec) (vs : List Values)
      → All (IsRow (f ∷ spec)) vs
      → All IsOneLine (map printed vs)
      → Prints out cfg
          (args ++ codes "-F" ∷ arg (f ∷ spec) ∷ [])
          c
          c'
          (written (ended (map printed vs)))
      → query_args out cfg (f ∷ spec) args c ≡ (c', ok (map (row_of (f ∷ spec)) vs))
  unfolding query_args
  query-printed c c' args f spec vs h k p =
      rw
        (
          run_lines-Prints out cfg {R = Refusal} _ _ p,
          split_lines-ended (map printed vs) k,
          parse_rows-printed f spec vs h,
        )
        refl
