-- ===== src/Client/Dollar.antt =====
-- `undoDollarEscape` of client.go, against what the source says tmux 3.4 stores.
use gotmucks.Base.{
  false, [], ◌∷◌, ◌≡◌, refl, sym, ◌∙◌, arith, Bytes, codes, ◌==◌, if◌then◌else◌, Bool-cases, inl,
  inr,
}
use gotmucks.Strings.{cut_text, has_prefix}
use gotmucks.Client.{undo_loop, undo_dollar_escape}

-- What tmux 3.4 stores for a value, as the source documents it: a backslash in front of each dollar
-- sign that something follows.
unfoldable pub stored : Bytes → Bytes
stored [] = []
stored (c ∷ []) = c ∷ []
stored (c ∷ d ∷ s) = let rest = stored (d ∷ s) in if c == b'$' then b'\\' ∷ c ∷ rest else c ∷ rest

undo-stored : (v : Bytes) → undo_loop (stored v) ≡ v
unfolding undo_loop stored
undo-stored [] = refl
undo-stored (c ∷ []) = refl
undo-stored (c ∷ d ∷ []) = ground arith
undo-stored (c ∷ d ∷ e ∷ s) = ground (arith, undo-stored (d ∷ e ∷ s))

-- A text without the escape is left as it is.
undo_loop-plain : (v : Bytes) → (cut_text (codes "\\$") v).found ≡ false → undo_loop v ≡ v
unfolding undo_loop cut_text has_prefix
undo_loop-plain [] h = refl
undo_loop-plain (c ∷ []) h = refl
undo_loop-plain (c ∷ d ∷ []) h = ground arith
undo_loop-plain (c ∷ d ∷ e ∷ s) h = ground (arith, undo_loop-plain (d ∷ e ∷ s))

-- Whatever value was written, what is read back from the form with a backslash in front of each
-- dollar sign that something follows is the value.
pub undo_dollar_escape-stored : (v : Bytes) → undo_dollar_escape (stored v) ≡ v
unfolding undo_dollar_escape
undo_dollar_escape-stored v = elim (Bool-cases (cut_text (codes "\\$") (stored v)).found) [
  | inl found ↦ rw found (undo-stored v)
  | inr plain ↦ rw plain (sym (undo_loop-plain (stored v) plain) ∙ undo-stored v)
]
