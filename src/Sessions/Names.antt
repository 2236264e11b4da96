-- ===== src/Sessions/Names.antt =====
-- session.go: the names and commands that pass their checks.
use gotmucks.Base.{
  ℕ, suc, false, ◌≢◌, ◌≡◌, ◌↔◌, refl, sym, ap, ◌∙◌, arith, List, [], ◌∷◌, Bytes, All, Lacks, none,
  some, contains_byte, Option-cases, inl, inr, codes,
}
use gotmucks.Strings.{index_any}
use gotmucks.Format.Query.{Refusal}
use gotmucks.Sessions.{
  check_session_name, session_name_as_stored, validate_from, validate_shell, validate_command,
  shell_metacharacters,
}

checked_stored : (s : Bytes) → index_any s (codes ":.") ≡ none → session_name_as_stored s ≡ s
unfolding index_any session_name_as_stored contains_byte
checked_stored [] h = refl
checked_stored (c ∷ s) h = ground (arith, checked_stored s)

stored_checked : (s : Bytes) → session_name_as_stored s ≡ s → index_any s (codes ":.") ≡ none
unfolding index_any session_name_as_stored contains_byte
stored_checked [] h = refl
stored_checked (c ∷ s) h = ground (arith, stored_checked s)

some-ne-none : (i : ℕ) → some i ≢ none
some-ne-none i = ground arith

found_ne_none :
    (name : Bytes) (i : ℕ) → index_any name (codes ":.") ≡ some i → check_session_name name ≢ none
unfolding check_session_name
found_ne_none name i e h = ground (arith, e)

-- A session name passes its check exactly if the name with an underscore for each colon and dot is
-- the same name.
check_session_name_iff :
    (name : Bytes) → (check_session_name name ≡ none) ↔ (session_name_as_stored name ≡ name)
unfolding check_session_name
check_session_name_iff name = elim (Option-cases (index_any name (codes ":."))) [
  | inl e ↦ (λ _. checked_stored name e, λ _. rw (check_session_name, e) refl)
  | inr (i, e) ↦ (
    λ h. absurd (found_ne_none name i e h),
    λ h. absurd (some-ne-none i (sym e ∙ stored_checked name h)),
  )
]

-- The text holds none of these bytes.
abbrev pub Avoids : Bytes → Bytes → Type 0
Avoids set_bytes = All (λ c. contains_byte c set_bytes ≡ false)

index_any-Avoids : (s b : Bytes) → index_any s b ≡ none → Avoids b s
unfolding index_any
index_any-Avoids [] b h = tt
index_any-Avoids (c ∷ s) b h = ground (arith, index_any-Avoids s b)

-- An element of a command: not empty, and without a byte that would end it.
abbrev pub IsElement : Bytes → Type 0
IsElement a = (a ≢ []) × Lacks 0 a × Lacks b'\n' a × Lacks 13 a

contains-Lacks : (b : ℕ) (s : Bytes) → contains_byte b s ≡ false → Lacks b s
unfolding contains_byte
contains-Lacks b [] h = tt
contains-Lacks b (c ∷ s) h = ground (arith, contains-Lacks b s)

validate_from-IsElement :
    (i : ℕ) (cmd : List Bytes) → validate_from i cmd ≡ none → All IsElement cmd
unfolding validate_from
validate_from-IsElement i [] h = tt
validate_from-IsElement i ([] ∷ args) h = ground arith
validate_from-IsElement i ((c ∷ a) ∷ args) h = ground (
  arith,
  contains-Lacks 0 (c ∷ a),
  contains-Lacks b'\n' (c ∷ a),
  contains-Lacks 13 (c ∷ a),
  validate_from-IsElement (suc i) args,
)

validate_shell-Avoids :
    (word : Bytes) → validate_shell (word ∷ []) ≡ none → Avoids shell_metacharacters word
unfolding validate_shell
validate_shell-Avoids word h = elim (Option-cases (index_any word shell_metacharacters)) [
  | inl e ↦ index_any-Avoids word shell_metacharacters e
  | inr (i, e) ↦ absurd (ground (arith, e, h))
]

first_none :
    (cmd : List Bytes)
    → validate_from 0 cmd ≡ none
    → validate_command cmd ≡ none
    → validate_shell cmd ≡ none
unfolding validate_command
first_none cmd e h = ground (arith, e, h)

first_some :
    (cmd : List Bytes) (r : Refusal) → validate_from 0 cmd ≡ some r → validate_command cmd ≢ none
unfolding validate_command
first_some cmd r e h = ground (arith, e, h)

-- A command that passes its check has no empty element and none with a NUL, a newline or a carriage
-- return; and if it has one element only, that element has no byte that a shell would read as more
-- than part of a word.
pub validate_command-IsElement :
    (cmd : List Bytes)
    → validate_command cmd ≡ none
    → All IsElement cmd × ((word : Bytes) → cmd ≡ word ∷ [] → Avoids shell_metacharacters word)
unfolding validate_command
validate_command-IsElement cmd h = elim (Option-cases (validate_from 0 cmd)) [
  | inl e ↦ (
    validate_from-IsElement 0 cmd e,
    λ word k. validate_shell-Avoids word (ap validate_shell (sym k) ∙ first_none cmd e h),
  )
  | inr (r, e) ↦ absurd (first_some cmd r e h)
]
