-- ===== src/Hooks/Reading.antt =====
-- `hooks` of hooks.go, on what the source says tmux prints.
use gotmucks.Base.{
  ℕ, true, ◌<◌, ◌≢◌, ◌≡◌, refl, ap, ◌∙◌, arith, List, [], ◌∷◌, ◌++◌, Bytes, All-append, Lacks,
}
use gotmucks.Strings.{is_digit, cut-append, cut_none}
use gotmucks.Ids.{all_digits}
use gotmucks.Version.{Version}
use gotmucks.Client.Run.Once.{kept}
use gotmucks.TmuxOptions.{split_array_element}
use gotmucks.TmuxOptions.Elements.{split_array_element_iff}
use gotmucks.Hooks.{Hook, parse_hooks}

-- An element of a hook.
pub record Entry : Type 0 where
  pub name : Bytes
  pub index : Bytes
  pub command : Bytes

abbrev pub bracketed : Entry → Bytes
bracketed e = e.name ++ b'[' ∷ (e.index ++ b']' ∷ [])

-- The name is not empty and holds no space, dollar sign or bracket, and the index is a decimal number.
pub record IsEntry (e : Entry) : Type 0 where
  pub named : e.name ≢ []
  pub unspaced : Lacks b' ' e.name
  pub plain : Lacks b'$' e.name
  pub unindexed : Lacks b'[' e.name
  pub counted : e.index ≢ []
  pub decimal : all_digits e.index ≡ true

-- The lines of these elements, in order, among blank lines and the bare names of hooks that are not
-- set.
pub data HookLines (v : Version) : List Entry → List Bytes → Type 0 where
  nil : HookLines v [] []
  blank : (es : List Entry) (ls : List Bytes) → HookLines v es ls → HookLines v es ([] ∷ ls)
  unset :
      (name : Bytes) (es : List Entry) (ls : List Bytes)
      → Lacks b' ' name
      → HookLines v es ls
      → HookLines v es (name ∷ ls)
  element :
      (e : Entry) (es : List Entry) (ls : List Bytes)
      → IsEntry e
      → HookLines v es ls
      → HookLines v (e ∷ es) ((bracketed e ++ b' ' ∷ kept v e.command) ∷ ls)

abbrev pub hook_of : Version → Entry → Hook
hook_of v e = record { printed = bracketed e; base = e.name; command = kept v e.command }

abbrev pub hooks_of : Version → List Entry → List Hook
hooks_of v [] = []
hooks_of v (e ∷ es) = hook_of v e ∷ hooks_of v es

digits-Lacks : (b : ℕ) (s : Bytes) → b < b'0' → all_digits s ≡ true → Lacks b (s ++ b']' ∷ [])
unfolding all_digits is_digit
digits-Lacks b [] n h = ground arith
digits-Lacks b (c ∷ s) n h = ground (arith, digits-Lacks b s n)

pub bracketed-Lacks :
    (b : ℕ) (e : Entry) → b < b'0' → IsEntry e → Lacks b e.name → Lacks b (bracketed e)
bracketed-Lacks b e n h k =
    All-append _ e.name _ k (omega arith, digits-Lacks b e.index n h.decimal)

split-bracketed : (e : Entry) → IsEntry e → split_array_element (bracketed e) ≡ (e.name, true)
split-bracketed e h = (split_array_element_iff (bracketed e) e.name).1 (record {
  index = e.index;
  named = h.named;
  counted = h.counted;
  decimal = h.decimal;
  form = refl;
})

parse-key :
    (key rest base : Bytes) (ls : List Bytes)
    → key ≢ []
    → Lacks b' ' key
    → split_array_element key ≡ (base, true)
    → parse_hooks ((key ++ b' ' ∷ rest) ∷ ls)
      ≡ record { printed = key; base = base; command = rest } ∷ parse_hooks ls
unfolding parse_hooks
parse-key [] rest base ls n k h = absurd (n refl)
parse-key (c ∷ key) rest base ls n k h = rw (cut-append b' ' (c ∷ key) rest k, h) refl

parse-unset :
    (name : Bytes) (ls : List Bytes) → Lacks b' ' name → parse_hooks (name ∷ ls) ≡ parse_hooks ls
unfolding parse_hooks
parse-unset [] ls k = refl
parse-unset (c ∷ name) ls k = rw (cut_none b' ' (c ∷ name) k) refl

append-ne-nil : (s t : Bytes) → s ≢ [] → s ++ t ≢ []
append-ne-nil [] t n = absurd (n refl)
append-ne-nil (c ∷ s) t n = ground arith

pub parse-HookLines :
    (v : Version) (es : List Entry) (ls : List Bytes)
    → HookLines v es ls
    → parse_hooks ls ≡ hooks_of v es
parse-HookLines v es ls nil = unfold parse_hooks in refl
parse-HookLines v es ls (blank _ ms h) = parse-unset [] ms tt ∙ parse-HookLines v es ms h
parse-HookLines v es ls (unset name _ ms k h) = parse-unset name ms k ∙ parse-HookLines v es ms h
parse-HookLines v es ls (element e fs ms k h) =
    parse-key (bracketed e) (kept v e.command) e.name ms (append-ne-nil e.name _ k.named)
      (bracketed-Lacks b' ' e (omega arith) k k.unspaced) (split-bracketed e k)
    ∙ ap (λ t. hook_of v e ∷ t) (parse-HookLines v fs ms h)
