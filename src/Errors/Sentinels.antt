-- ===== src/Errors/Sentinels.antt =====
-- errors.go: what a text that is taken for an absence holds.
use gotmucks.Base.{true, List, [], ◌∷◌, ◌≡◌, ◌⊎◌, arith, Bytes, some, Bool-cases, inl, inr}
use gotmucks.Strings.{cut_text, trim_space}
use gotmucks.Errors.{
  Sentinel, no_server_patterns, missing_target_patterns, holds_any, first_target, to_lower,
  no_server_lowered, missing_lowered, is_no_server_stderr, missing_target_err,
}

-- The text holds one of these patterns.
pub data HoldsOne (s : Bytes) : List Bytes → Type 0 where
  here : (p : Bytes) (ps : List Bytes) → (cut_text p s).found ≡ true → HoldsOne s (p ∷ ps)
  there : (p : Bytes) (ps : List Bytes) → HoldsOne s ps → HoldsOne s (p ∷ ps)

abbrev patterns : List (Bytes × Sentinel) → List Bytes
patterns [] = []
patterns ((p, e) ∷ ps) = p ∷ patterns ps

-- The message, trimmed and lower-cased, says that there is no server, or that an object is missing.
abbrev pub SaysAbsent : (Bytes → Bytes) → Bytes → Type 0
SaysAbsent unicode stderr =
    HoldsOne (to_lower unicode (trim_space stderr)) no_server_patterns
    ⊎ HoldsOne (to_lower unicode (trim_space stderr)) (patterns missing_target_patterns)

holds_any-HoldsOne : (ps : List Bytes) (s : Bytes) → holds_any ps s ≡ true → HoldsOne s ps
unfolding holds_any
holds_any-HoldsOne [] s h = absurd (ground (arith, h))
holds_any-HoldsOne (p ∷ ps) s h = elim (Bool-cases (cut_text p s).found) [
  | inl e ↦ here p ps e
  | inr e ↦ there p ps (holds_any-HoldsOne ps s (ground (arith, e, h)))
]

first_target-HoldsOne :
    (ps : List (Bytes × Sentinel)) (s : Bytes) (e : Sentinel)
    → first_target ps s ≡ some e
    → HoldsOne s (patterns ps)
unfolding first_target
first_target-HoldsOne [] s e h = absurd (ground (arith, h))
first_target-HoldsOne ((p, d) ∷ ps) s e h = elim (Bool-cases (cut_text p s).found) [
  | inl k ↦ here p (patterns ps) k
  | inr k ↦ there p (patterns ps) (first_target-HoldsOne ps s e (ground (arith, k, h)))
]

no_server_lowered-HoldsOne :
    (s : Bytes) → no_server_lowered s ≡ true → HoldsOne s no_server_patterns
unfolding no_server_lowered
no_server_lowered-HoldsOne [] h = absurd (ground (arith, h))
no_server_lowered-HoldsOne (c ∷ s) h = holds_any-HoldsOne no_server_patterns (c ∷ s) h

missing_lowered-HoldsOne :
    (s : Bytes) (e : Sentinel)
    → missing_lowered s ≡ some e
    → HoldsOne s (patterns missing_target_patterns)
unfolding missing_lowered
missing_lowered-HoldsOne [] e h = absurd (ground (arith, h))
missing_lowered-HoldsOne (c ∷ s) e h = first_target-HoldsOne missing_target_patterns (c ∷ s) e h

pub no_server-SaysAbsent :
    (unicode : Bytes → Bytes) (stderr : Bytes)
    → is_no_server_stderr unicode stderr ≡ true
    → SaysAbsent unicode stderr
unfolding is_no_server_stderr
no_server-SaysAbsent unicode stderr h = inl (no_server_lowered-HoldsOne _ h)

pub missing_target-SaysAbsent :
    (unicode : Bytes → Bytes) (stderr : Bytes) (e : Sentinel)
    → missing_target_err unicode stderr ≡ some e
    → SaysAbsent unicode stderr
unfolding missing_target_err
missing_target-SaysAbsent unicode stderr e h = inr (missing_lowered-HoldsOne _ e h)
