-- ===== src/Command/Refresh/Size.antt =====
-- `SetSize` of control_cmds.go: the size of the client, whose spelling depends on the version.
use gotmucks.Base.{
  ℕ, Bool, true, not, ◌||◌, ◌&&◌, ◌<◌, [], ◌∷◌, ◌++◌, ◌≡◌, ◌∙◌, ap, arith, Bytes, some, codes,
  if◌then◌else◌, ◌⊎◌, ◌^◌, Lacks,
}
use gotmucks.Base.Int.{ℤ, pos, ltb_ℤ}
use gotmucks.Strings.{cut, cut-append, parse_int}
use gotmucks.Strings.Decimal.{itoa, show_ℕ, show_ℕ-IsDigits, IsDigits, parse_int-itoa}
use gotmucks.Version.{Version, minimum_version, at_least}
use gotmucks.Command.Refresh.{Refresh, sends, fails}

pub data SizeError : Type 0 where
  bad_size : ℤ → ℤ → SizeError

-- The version is known and is older than tmux 3.2.
unfoldable pub wants_comma : Version → Bool
unfolding at_least
wants_comma v = not v.unknown && ltb_ℤ (pos 0) v.major && not (at_least v minimum_version)

-- `"%dx%d"` or `"%d,%d"`.
unfoldable pub size_separator : Version → ℕ
unfolding wants_comma
size_separator v = if wants_comma v then b',' else b'x'

unfoldable pub set_size : Version → ℤ → ℤ → Refresh SizeError
unfolding size_separator itoa
set_size v cols rows =
    if not (ltb_ℤ (pos 0) cols) || not (ltb_ℤ (pos 0) rows)
    then fails (bad_size cols rows)
    else sends
        (codes "refresh-client" ∷ codes "-C" ∷ (itoa cols ++ size_separator v ∷ itoa rows) ∷ [])

Lacks-digits : (sep : ℕ) (s : Bytes) → IsDigits s → (b'9' < sep) ⊎ (sep < b'0') → Lacks sep s
Lacks-digits sep [] d h = tt
Lacks-digits sep (c ∷ s) d h = (λ e. ground (arith, d.0, e, h), Lacks-digits sep s d.1 h)

-- No separator is a digit.
separator_no_digit : (v : Version) → (b'9' < size_separator v) ⊎ (size_separator v < b'0')
unfolding size_separator
separator_no_digit v = ground arith

found :
    (v : Version) (cols rows : ℕ)
    → cut (size_separator v) (itoa (pos cols) ++ size_separator v ∷ itoa (pos rows))
      ≡ record { before = itoa (pos cols); after = itoa (pos rows); found = true }
unfolding itoa
found v cols rows =
    cut-append (size_separator v) (show_ℕ cols) (show_ℕ rows)
      (Lacks-digits _ (show_ℕ cols) (show_ℕ-IsDigits cols) (separator_no_digit v))

-- A size of two numbers above 0 is read back from the argument, cut at its separator.
size_cut :
    (v : Version) (cols rows : ℕ)
    → (0 < cols) × (cols < 2 ^ 63)
    → (0 < rows) × (rows < 2 ^ 63)
    → (arg : Bytes) × (set_size v (pos cols) (pos rows)
        ≡ sends (codes "refresh-client" ∷ codes "-C" ∷ arg ∷ []))
      × (parse_int (cut (size_separator v) arg).before ≡ some (pos cols))
      × (parse_int (cut (size_separator v) arg).after ≡ some (pos rows))
unfolding set_size
size_cut v cols rows hc hr = (
  itoa (pos cols) ++ size_separator v ∷ itoa (pos rows),
  ground (arith, hc.0, hr.0),
  ap (λ p. parse_int p.before) (found v cols rows) ∙ parse_int-itoa (pos cols) hc.1,
  ap (λ p. parse_int p.after) (found v cols rows) ∙ parse_int-itoa (pos rows) hr.1,
)
