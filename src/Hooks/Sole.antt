-- ===== src/Hooks/Sole.antt =====
-- `ShowHooks` of hooks.go: a hook with one element is found under the name it was set with.
use gotmucks.Base.{
  ◌≢◌, ◌≡◌, refl, sym, ap, subst, ◌∙◌, List, [], ◌∷◌, ◌++◌, Bytes, All, Lacks, none, some,
  if◌then◌else◌, ltb, Bool-cases, inl, inr, bytes_eq_self,
}
use gotmucks.Ids.{Target, check_target}
use gotmucks.Dict.{Dict, last_of, last_of-last, look, ne-bytes_eq}
use gotmucks.Config.{Config}
use gotmucks.Version.{Version}
use gotmucks.Client.Run.{Outside, Client, ok, tmux_version}
use gotmucks.Hooks.{hook_scopes, show_commands, show_hooks}
use gotmucks.Hooks.Reading.{Entry, bracketed, IsEntry, HookLines}
use gotmucks.Hooks.Keyed.{count, key, keyed, PrintsAll, hooks-HookLines, All-HookLines}

abbrev pub IsOther : Bytes → Entry → Type 0
IsOther name e = e.name ≢ name

count_none : (name : Bytes) (es : List Entry) → All (IsOther name) es → count name es ≡ 0
unfolding count
count_none name [] h = refl
count_none name (e ∷ es) h = rw (ne-bytes_eq e.name name h.0) (count_none name es h.1)

count_one :
    (xs ys : List Entry) (e : Entry)
    → All (IsOther e.name) xs
    → All (IsOther e.name) ys
    → count e.name (xs ++ e ∷ ys) ≡ 1
unfolding count
count_one [] ys e hx hy = rw (bytes_eq_self e.name, count_none e.name ys hy) refl
count_one (x ∷ xs) ys e hx hy = rw (ne-bytes_eq x.name e.name hx.0) (count_one xs ys e hx.1 hy)

Lacks-bracket : (s t : Bytes) → ¬ Lacks b'[' (s ++ b'[' ∷ t)
Lacks-bracket [] t h = h.0 refl
Lacks-bracket (c ∷ s) t h = Lacks-bracket s t h.1

key-ne :
    (all : List Entry) (name : Bytes) (e : Entry)
    → Lacks b'[' name
    → IsOther name e
    → key all e ≢ name
unfolding key
key-ne all name e l n h = elim (Bool-cases (ltb 1 (count e.name all))) [
  | inl k ↦
      Lacks-bracket e.name (e.index ++ b']' ∷ [])
        (subst (Lacks b'[') (sym h ∙ ap (λ b. if b then bracketed e else e.name) k) l)
  | inr k ↦ n (sym (ap (λ b. if b then bracketed e else e.name) k) ∙ h)
]

keyed-ne :
    (all es : List Entry) (name : Bytes)
    → Lacks b'[' name
    → All (IsOther name) es
    → All (λ x. x.0 ≢ name) (keyed all es)
keyed-ne all [] name l h = tt
keyed-ne all (e ∷ es) name l h = (key-ne all name e l h.0, keyed-ne all es name l h.1)

keyed-append : (all xs ys : List Entry) → keyed all (xs ++ ys) ≡ keyed all xs ++ keyed all ys
keyed-append all [] ys = refl
keyed-append all (x ∷ xs) ys = ap (◌∷◌ (key all x, x.command)) (keyed-append all xs ys)

middle : (xs ys : List Entry) (e : Entry) → All IsEntry (xs ++ e ∷ ys) → IsEntry e
middle [] ys e h = h.0
middle (x ∷ xs) ys e h = middle xs ys e h.1

key-sole :
    (xs ys : List Entry) (e : Entry)
    → All (IsOther e.name) xs
    → All (IsOther e.name) ys
    → key (xs ++ e ∷ ys) e ≡ e.name
unfolding key
key-sole xs ys e hx hy = ap (λ n. if ltb 1 n then bracketed e else e.name) (count_one xs ys e hx hy)

last_of-sole :
    (xs ys : List Entry) (e : Entry)
    → IsEntry e
    → All (IsOther e.name) xs
    → All (IsOther e.name) ys
    → last_of e.name (keyed (xs ++ e ∷ ys) (xs ++ e ∷ ys)) none ≡ some e.command
last_of-sole xs ys e h hx hy =
    let all = xs ++ e ∷ ys in
    ap (λ d. last_of e.name d none)
      (keyed-append all xs (e ∷ ys)
        ∙ ap (λ k. keyed all xs ++ (k, e.command) ∷ keyed all ys) (key-sole xs ys e hx hy))
    ∙ last_of-last e.name e.command (keyed all xs) (keyed all ys) none
        (keyed-ne all ys e.name h.unindexed hy)

module _ {W : Type 0} (out : Outside W) (cfg : Config) where
  -- For a target that passes its check and a client that is to find this version of tmux: where the
  -- three listings print elements of hooks among blank lines and bare names, a hook of which one
  -- element only is printed is found under its own name, without an index, with its command.
  pub show_hooks-sole :
      (t : Target) (c c' : Client W) (v : Version) (xs ys : List Entry) (e : Entry)
      (ls : List Bytes)
      → check_target t ≡ none
      → PrintsAll out cfg (show_commands hook_scopes t) c c' ls
      → HookLines v (xs ++ e ∷ ys) ls
      → (tmux_version out cfg c').1 ≡ v
      → All (IsOther e.name) xs
      → All (IsOther e.name) ys
      → (found : Dict) × ((show_hooks out cfg t c).1 ≡ ok found)
        × (look e.name found ≡ some e.command)
  unfolding show_hooks
  show_hooks-sole t c c' v xs ys e ls ht p h a hx hy =
      let r =
        hooks-HookLines out cfg (show_commands hook_scopes t) c c' v (xs ++ e ∷ ys) ls p h a in
      let entry = middle xs ys e (All-HookLines v (xs ++ e ∷ ys) ls h) in
      (r.0, rw ht r.1, r.2 e.name ∙ last_of-sole xs ys e entry hx hy)
