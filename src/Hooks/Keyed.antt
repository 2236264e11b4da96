-- ===== src/Hooks/Keyed.antt =====
-- `ShowHooks` and `ShowGlobalHooks` of hooks.go: the key that each hook is found under.
use gotmucks.Base.{
  ℕ, suc, ◌≡◌, refl, sym, ap, ◌∙◌, arith, List, [], ◌∷◌, ◌++◌, Bytes, All, Lacks, none,
  if◌then◌else◌, ltb, Bool-cases, inl, inr, bytes_eq, append_assoc, append-nil,
}
use gotmucks.Dict.{Dict, put, puts, last_of, look, look-puts, look-none}
use gotmucks.Config.{Config}
use gotmucks.Version.{Version}
use gotmucks.Client.{split_lines}
use gotmucks.Client.Dollar.{stored}
use gotmucks.Client.Run.{Outside, Client, ok, tmux_version, decode_stored}
use gotmucks.Client.Run.Once.{kept, Prints, run_lines-Prints, tmux_version_once, decode_stored-kept}
use gotmucks.Hooks.{
  Hook, HookError, elements, hook_key, hook_lines, store_hooks, found_hooks, hooks,
}
use gotmucks.Hooks.Reading.{
  Entry, bracketed, IsEntry, HookLines, nil, blank, unset, element, hook_of, hooks_of,
  bracketed-Lacks, parse-HookLines,
}

-- How many of the elements are of the hook with this name.
unfoldable pub count : Bytes → List Entry → ℕ
unfolding bytes_eq
count name [] = 0
count name (e ∷ es) = let rest = count name es in if bytes_eq e.name name then suc rest else rest

-- A hook with one element is found under its name, and each of several under its name and index.
unfoldable pub key : List Entry → Entry → Bytes
unfolding count
key all e = if ltb 1 (count e.name all) then bracketed e else e.name

abbrev pub keyed : List Entry → List Entry → Dict
keyed all [] = []
keyed all (e ∷ es) = (key all e, e.command) ∷ keyed all es

elements-count :
    (v : Version) (name : Bytes) (es : List Entry) → elements name (hooks_of v es) ≡ count name es
unfolding elements count
elements-count v name [] = refl
elements-count v name (e ∷ es) = rw (elements-count v name es) refl

hook_key-key :
    (v : Version) (all : List Entry) (e : Entry)
    → hook_key (hooks_of v all) (hook_of v e) ≡ key all e
unfolding hook_key key
hook_key-key v all e = rw (elements-count v e.name all) refl

stored-Lacks : (s : Bytes) → Lacks b'$' s → stored s ≡ s
unfolding stored
stored-Lacks [] h = refl
stored-Lacks (c ∷ []) h = refl
stored-Lacks (c ∷ d ∷ s) h = ground (arith, stored-Lacks (d ∷ s) h.1)

kept-Lacks : (v : Version) (s : Bytes) → Lacks b'$' s → kept v s ≡ s
unfolding kept
kept-Lacks v s h = ground (arith, stored-Lacks s h)

key-Lacks : (all : List Entry) (e : Entry) → IsEntry e → Lacks b'$' (key all e)
unfolding key
key-Lacks all e h = elim (Bool-cases (ltb 1 (count e.name all))) [
  | inl k ↦ rw k (bracketed-Lacks b'$' e (omega arith) h h.plain)
  | inr k ↦ rw k h.plain
]

pub All-HookLines :
    (v : Version) (es : List Entry) (ls : List Bytes) → HookLines v es ls → All IsEntry es
All-HookLines v es ls nil = tt
All-HookLines v es ls (blank _ ms h) = All-HookLines v es ms h
All-HookLines v es ls (unset name _ ms k h) = All-HookLines v es ms h
All-HookLines v es ls (element e fs ms k h) = (k, All-HookLines v fs ms h)

module _ {W : Type 0} (out : Outside W) (cfg : Config) where
  -- Running these commands in order prints these lines.
  pub data PrintsAll : List (List Bytes) → Client W → Client W → List Bytes → Type 0 where
    no_more : (c : Client W) → PrintsAll [] c c []
    more :
        (args : List Bytes) (cmds : List (List Bytes)) (c c' c'' : Client W) (stdout : Bytes)
        (ls : List Bytes)
        → Prints out cfg args c c' stdout
        → PrintsAll cmds c' c'' ls
        → PrintsAll (args ∷ cmds) c c'' (split_lines stdout ++ ls)

  hook_lines-PrintsAll :
      (cmds : List (List Bytes)) (c c' : Client W) (ls before : List Bytes)
      → PrintsAll cmds c c' ls
      → hook_lines out cfg cmds before c ≡ (c', ok (before ++ ls))
  unfolding hook_lines
  hook_lines-PrintsAll cmds c c' ls before (no_more _) =
      ap (λ t. (c, ok t)) (sym (append-nil before))
  hook_lines-PrintsAll cmds c c' ls before (more args rest _ d _ stdout ms p q) =
      rw (run_lines-Prints out cfg {R = HookError} args stdout p) (
        hook_lines-PrintsAll rest d c' ms (before ++ split_lines stdout) q
        ∙ ap (λ t. (c', ok t)) (append_assoc before (split_lines stdout) ms))

  abbrev Asks : Client W → Version → Type 0
  Asks c v = (tmux_version out cfg c).1 ≡ v

  store-step :
      (v : Version) (all hs : List Hook) (h : Hook) (k m : Bytes) (c : Client W) (opts : Dict)
      → Asks c v
      → h.command ≡ kept v m
      → hook_key all h ≡ kept v k
      → store_hooks out cfg all (h ∷ hs) opts c
        ≡ store_hooks out cfg all hs (put k m opts) (tmux_version out cfg c).0
  unfolding store_hooks
  store-step v all hs h k m c opts a em ek =
      let once = tmux_version_once out cfg c in
      let first =
        ap (λ t. decode_stored out cfg {R = HookError} t c) em
        ∙ decode_stored-kept out cfg c v m a in
      let second =
        ap (λ t. decode_stored out cfg {R = HookError} t (tmux_version out cfg c).0) ek
        ∙ decode_stored-kept out cfg (tmux_version out cfg c).0 v k (ap (λ r. r.1) once ∙ a)
        ∙ ap (λ r. (r.0, ok k)) once in
      ground (arith, first, second)

  store-hooks_of :
      (v : Version) (all es : List Entry) (c : Client W) (opts : Dict)
      → Asks c v
      → All IsEntry es
      → (store_hooks out cfg (hooks_of v all) (hooks_of v es) opts c).1
        ≡ ok (puts (keyed all es) opts)
  store-hooks_of v all [] c opts a h = unfold store_hooks in refl
  store-hooks_of v all (e ∷ es) c opts a h =
      let k = hook_key-key v all e ∙ sym (kept-Lacks v (key all e) (key-Lacks all e h.0)) in
      rw
        (store-step v (hooks_of v all) (hooks_of v es) (hook_of v e) (key all e) e.command c opts a
          refl k)
        (store-hooks_of v all es (tmux_version out cfg c).0 (put (key all e) e.command opts)
          (ap (λ r. r.1) (tmux_version_once out cfg c) ∙ a) h.1)

  -- Whatever elements the listings print, the hooks found are these, each under its name if it is the
  -- only element of its hook and else under its name and index; under a key that two elements share
  -- is the command of the later one.
  pub hooks-HookLines :
      (cmds : List (List Bytes)) (c c' : Client W) (v : Version) (es : List Entry) (ls : List Bytes)
      → PrintsAll cmds c c' ls
      → HookLines v es ls
      → Asks c' v
      → (found : Dict) × ((hooks out cfg cmds c).1 ≡ ok found)
        × ((k : Bytes) → look k found ≡ last_of k (keyed es es) none)
  unfolding hooks found_hooks
  hooks-HookLines cmds c c' v es ls p h a = (
    puts (keyed es es) [],
    rw (hook_lines-PrintsAll cmds c c' ls [] p, parse-HookLines v es ls h)
        (store-hooks_of v es es c' [] a (All-HookLines v es ls h)),
    λ k. look-puts k (keyed es es) [] ∙ ap (last_of k (keyed es es)) (look-none k),
  )
