-- ===== src/TmuxOptions/Checked.antt =====
-- What the option operations of tmuxopts.go check before they run anything.
use gotmucks.Base.{
  ℕ, suc, ◌+◌, ◌<◌, ◌≤◌, ◌≢◌, ◌≡◌, refl, sym, ap, ◌∙◌, subst, arith, [], ◌∷◌, ◌++◌, Bytes, none,
  some, inl, inr, length, All, ◌⊎◌, Bool-cases, leb,
}
use gotmucks.Ids.{
  Target, session_target, window_target, pane_target, global, check_target, check_id, valid_id,
  session_sigil, window_sigil, pane_sigil, session, window, pane, IdError, bad_id, ObjectKind,
}
use gotmucks.Ids.Laws.{IsId, valid_id_iff}
use gotmucks.Config.{Config}
use gotmucks.Client.Run.{Outside, Client, err, Failure, refused, invalid, run_ok}
use gotmucks.TmuxOptions.{
  OptionScope, OptionError, empty_name, bad_byte, name_from, check_option_name, set_args,
  unset_args, show_option, set_option_scoped, unset_option,
}

-- A name that is not empty, of bytes above the space.
abbrev pub IsName : Bytes → Type 0
IsName name = (name ≢ []) × All (λ c. b' ' < c) name

-- What is wrong with a name: it is empty, or this is its first byte that is a space or below, at
-- this index.
pub data BadName : Bytes → OptionError → Type 0 where
  empty : BadName [] empty_name
  byte :
      (before after : Bytes) (c : ℕ)
      → All (λ d. b' ' < d) before
      → c ≤ b' '
      → BadName (before ++ c ∷ after) (bad_byte c (length before))

-- A sigil of its kind and one decimal digit or more, or the global target.
abbrev pub IsTarget : Target → Type 0
IsTarget (session_target id) = IsId session_sigil id
IsTarget (window_target id) = IsId window_sigil id
IsTarget (pane_target id) = IsId pane_sigil id
IsTarget global = Unit

name_from-cases :
    (i : ℕ) (name : Bytes)
    → ((name_from i name ≡ none) × All (λ c. b' ' < c) name)
      ⊎ ((before : Bytes) × (after : Bytes) × (c : ℕ) × (name ≡ before ++ c ∷ after)
          × All (λ d. b' ' < d) before
          × (c ≤ b' ')
          × (name_from i name ≡ some (bad_byte c (i + length before))))
unfolding name_from
name_from-cases i [] = inl (refl, tt)
name_from-cases i (c ∷ s) = elim (Bool-cases (leb c b' ')) [
  | inl low ↦ inr ([], s, c, refl, tt, ground (arith, low), ground (arith, low))
  | inr high ↦ elim (name_from-cases (suc i) s) [
    | inl (e, h) ↦ inl (rw high e, (ground (arith, high), h))
    | inr (x, y, d, p, h, k, e) ↦ inr (
      c ∷ x,
      y,
      d,
      ap (◌∷◌ c) p,
      (ground (arith, high), h),
      k,
      rw high (e ∙ ap (λ n. some (bad_byte d n)) (omega arith)),
    )
  ]
]

check_option_name-cases :
    (name : Bytes)
    → ((check_option_name name ≡ none) × IsName name)
      ⊎ ((e : OptionError) × BadName name e × (check_option_name name ≡ some e))
unfolding check_option_name
check_option_name-cases [] = inr (empty_name, empty, refl)
check_option_name-cases (c ∷ s) = elim (name_from-cases 0 (c ∷ s)) [
  | inl (e, h) ↦ inl (e, (ground arith, h))
  | inr (x, y, d, p, h, k, e) ↦ inr (
    bad_byte d (length x),
    subst (λ n. BadName n (bad_byte d (length x))) (sym p) (byte x y d h k),
    e ∙ ap (λ n. some (bad_byte d n)) (omega arith),
  )
]

check_id-cases :
    (id : Bytes) (sigil : ℕ) (kind : ObjectKind)
    → ((check_id id sigil kind ≡ none) × IsId sigil id)
      ⊎ ((e : IdError) × (check_id id sigil kind ≡ some e) × ¬ IsId sigil id)
unfolding check_id
check_id-cases id sigil kind = elim (Bool-cases (valid_id id sigil)) [
  | inl v ↦ inl (rw v refl, (valid_id_iff id sigil).0 v)
  | inr w ↦
      inr (bad_id id sigil kind, rw w refl, λ h. ground (arith, w, (valid_id_iff id sigil).1 h))
]

check_target-cases :
    (t : Target)
    → ((check_target t ≡ none) × IsTarget t)
      ⊎ ((e : IdError) × (check_target t ≡ some e) × ¬ IsTarget t)
unfolding check_target
check_target-cases (session_target id) = check_id-cases id session_sigil session
check_target-cases (window_target id) = check_id-cases id window_sigil window
check_target-cases (pane_target id) = check_id-cases id pane_sigil pane
check_target-cases global = inl (refl, tt)

module _ {W : Type 0} (out : Outside W) (cfg : Config) where
  -- The three operations return this error and leave the client, and all outside, as they were.
  abbrev pub AllRefuse :
      Client W → Target → OptionScope → Bytes → Bytes → Failure OptionError → Type 0
  AllRefuse c t scope name value e =
      (set_option_scoped out cfg t scope name value c ≡ (c, err e))
      × (unset_option out cfg t scope name c ≡ (c, err e))
      × (show_option out cfg t scope name c ≡ (c, err e))

  -- SetOptionScoped and UnsetOption run their one command where the name is not empty and holds no
  -- space and no byte below it, and the target is global or names its object by a sigil and digits.
  -- Else they and ShowOption return the same error, run nothing and leave the client as it is:
  -- first the error that says what is wrong with the name, the first bad byte and its index
  -- included, and for a good name the error of the target.
  pub option_operations_checked :
      (c : Client W) (t : Target) (scope : OptionScope) (name value : Bytes)
      → (IsName name
          × IsTarget t
          × (set_option_scoped out cfg t scope name value c
              ≡ run_ok out cfg (set_args t scope name value) c)
          × (unset_option out cfg t scope name c ≡ run_ok out cfg (unset_args t scope name) c))
        ⊎ (((e : OptionError) × BadName name e × AllRefuse c t scope name value (refused e))
            ⊎ ((e : IdError) × IsName name
                × (¬ IsTarget t)
                × AllRefuse c t scope name value (invalid e)))
  unfolding set_option_scoped unset_option show_option
  option_operations_checked c t scope name value = elim (check_option_name-cases name) [
    | inr (e, b, n) ↦ inr (inl (e, b, (rw n refl, rw n refl, rw n refl)))
    | inl (n, h) ↦ elim (check_target-cases t) [
      | inr (e, k, w) ↦ inr (inr (e, h, w, (rw (n, k) refl, rw (n, k) refl, rw (n, k) refl)))
      | inl (k, v) ↦ inl (h, v, rw (n, k) refl, rw (n, k) refl)
    ]
  ]
