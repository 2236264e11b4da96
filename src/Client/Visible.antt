-- ===== src/Client/Visible.antt =====
-- `splitLines` of client.go, on lines that hold no byte below space.
use gotmucks.Base.{
  ◌≤◌, ◌≡◌, ◌≢◌, refl, ap, ◌∙◌, arith, List, [], ◌∷◌, Bytes, All, Lacks, false, map, bytes_eq,
}
use gotmucks.Strings.{trim_suffix}
use gotmucks.Client.{without_return, split_lines}
use gotmucks.Client.Lines.{Ended, IsLine, written, split_lines-written}

abbrev pub IsVisible : Bytes → Type 0
IsVisible = All (λ c. b' ' ≤ c)

-- The text holds neither a newline nor a carriage return.
abbrev pub IsOneLine : Bytes → Type 0
IsOneLine = All (λ c. (c ≢ b'\n') × (c ≢ 13))

pub visible-IsOneLine : (s : Bytes) → IsVisible s → IsOneLine s
visible-IsOneLine [] h = tt
visible-IsOneLine (c ∷ s) h = ((omega arith, omega arith), visible-IsOneLine s h.1)

one_line-Lacks : (s : Bytes) → IsOneLine s → Lacks b'\n' s
one_line-Lacks [] h = tt
one_line-Lacks (c ∷ s) h = (h.0.0, one_line-Lacks s h.1)

one_line-without_return : (s : Bytes) → IsOneLine s → without_return s ≡ s
unfolding trim_suffix bytes_eq
one_line-without_return [] h = refl
one_line-without_return (c ∷ s) h = ground (arith, one_line-without_return s h.1)

-- Each of these lines, ended with a newline.
abbrev pub ended : List Bytes → List Ended
ended [] = []
ended (l ∷ ls) = (l, false) ∷ ended ls

lines-ended : (ls : List Bytes) → map (λ x. x.0) (ended ls) ≡ ls
lines-ended [] = refl
lines-ended (l ∷ ls) = ap (◌∷◌ l) (lines-ended ls)

ended-IsLine : (ls : List Bytes) → All IsOneLine ls → All IsLine (ended ls)
ended-IsLine [] h = tt
ended-IsLine (l ∷ ls) h =
    ((one_line-Lacks l h.0, one_line-without_return l h.0), ended-IsLine ls h.1)

-- Such lines, each ended with a newline, are the lines found.
pub split_lines-ended : (ls : List Bytes) → All IsOneLine ls → split_lines (written (ended ls)) ≡ ls
split_lines-ended ls h = split_lines-written (ended ls) (ended-IsLine ls h) ∙ lines-ended ls

All-visible : (ls : List Bytes) → All IsVisible ls → All IsOneLine ls
All-visible [] h = tt
All-visible (l ∷ ls) h = (visible-IsOneLine l h.0, All-visible ls h.1)

pub split_lines-visible :
    (ls : List Bytes) → All IsVisible ls → split_lines (written (ended ls)) ≡ ls
split_lines-visible ls h = split_lines-ended ls (All-visible ls h)
