-- ===== src/Hooks.antt =====
-- hooks.go: tmux hooks, how they are set and unset, and how the hooks that tmux prints are read back.
pub mod Reading
pub mod Keyed
pub mod Sole
use gotmucks.Base.{
  ℕ, suc, Bool, true, false, ◌||◌, ◌==◌, leb, ltb, List, [], ◌∷◌, ◌++◌, Bytes, Option, none, some,
  codes, if◌then◌else◌, bytes_eq,
}
use gotmucks.Strings.{cut}
use gotmucks.Ids.{Target, check_target}
use gotmucks.Dict.{Dict, put}
use gotmucks.Config.{Config}
use gotmucks.Client.Run.{
  Outside, Op, Result, ok, err, invalid, refused, ◌>>=◌, ◌>>◌, done, fail, guard, attempt, run_ok,
  run_lines, decode_stored, says_no_server, says_missing,
}
use gotmucks.TmuxOptions.{target_args, split_array_element}

-- The scopes whose listings have hooks between them.
abbrev pub hook_scopes : List (List Bytes)
hook_scopes = [] ∷ (codes "-w" ∷ []) ∷ (codes "-p" ∷ []) ∷ []

pub data HookError : Type 0 where
  empty_name : HookError
  -- the byte, and its index
  bad_byte : ℕ → ℕ → HookError
  empty_command : HookError

-- The loop of `checkHookName` at an index.
unfoldable pub name_from : ℕ → Bytes → Option HookError
name_from i [] = none
name_from i (c ∷ s) =
    let rest = name_from (suc i) s in if leb c b' ' then some (bad_byte c i) else rest

unfoldable pub check_hook_name : Bytes → Option HookError
unfolding name_from
check_hook_name [] = some empty_name
check_hook_name (c ∷ s) = name_from 0 (c ∷ s)

unfoldable pub check_hook_command : Bytes → Option HookError
check_hook_command [] = some empty_command
check_hook_command (c ∷ s) = none

pub record Hook : Type 0 where
  pub printed : Bytes
  pub base : Bytes
  pub command : Bytes

abbrev onto_hook : Bytes → Bytes → List Hook → List Hook
unfolding split_array_element
onto_hook printed command rest =
    record { printed = printed; base = (split_array_element printed).0; command = command } ∷ rest

-- The loop that parses the lines; a blank line and a name with no command are passed over.
unfoldable pub parse_hooks : List Bytes → List Hook
unfolding cut split_array_element
parse_hooks [] = []
parse_hooks ([] ∷ lines) = parse_hooks lines
parse_hooks ((c ∷ line) ∷ lines) =
    let rest = parse_hooks lines in
    let p = cut b' ' (c ∷ line) in if p.found then onto_hook p.before p.after rest else rest

-- `elements[base]`, once all lines are parsed.
unfoldable pub elements : Bytes → List Hook → ℕ
unfolding bytes_eq
elements base [] = 0
elements base (h ∷ hs) =
    let rest = elements base hs in if bytes_eq h.base base then suc rest else rest

-- The key of a hook: its name, without the index if it is the only element.
unfoldable pub hook_key : List Hook → Hook → Bytes
unfolding elements
hook_key all h = if ltb 1 (elements h.base all) then h.printed else h.base

abbrev pub set_args : Target → Bytes → Bytes → List Bytes
unfolding target_args
set_args t name command = codes "set-hook" ∷ (target_args t ++ codes "--" ∷ name ∷ command ∷ [])

abbrev pub unset_args : Target → Bytes → List Bytes
unfolding target_args
unset_args t name = codes "set-hook" ∷ codes "-u" ∷ (target_args t ++ codes "--" ∷ name ∷ [])

-- The listings of an object's hooks, one for each scope.
unfoldable pub show_commands : List (List Bytes) → Target → List (List Bytes)
unfolding target_args
show_commands [] t = []
show_commands (s ∷ ss) t = (codes "show-hooks" ∷ (s ++ target_args t)) ∷ show_commands ss t

unfoldable pub show_global_commands : List (List Bytes) → List (List Bytes)
show_global_commands [] = []
show_global_commands (s ∷ ss) = (codes "show-hooks" ∷ codes "-g" ∷ s) ∷ show_global_commands ss

module _ {W : Type 0} (out : Outside W) (cfg : Config) where
  unfoldable pub set_hook : Target → Bytes → Bytes → Op W HookError (Unit {0})
  unfolding check_hook_name check_hook_command check_target run_ok
  set_hook t name command = do
    guard refused (check_hook_name name)
    guard refused (check_hook_command command)
    guard invalid (check_target t)
    run_ok out cfg (set_args t name command)

  unfoldable pub set_global_hook : Bytes → Bytes → Op W HookError (Unit {0})
  unfolding check_hook_name check_hook_command run_ok
  set_global_hook name command = do
    guard refused (check_hook_name name)
    guard refused (check_hook_command command)
    run_ok out cfg (codes "set-hook" ∷ codes "-g" ∷ codes "--" ∷ name ∷ command ∷ [])

  unfoldable pub unset_hook : Target → Bytes → Op W HookError (Unit {0})
  unfolding check_hook_name check_target run_ok
  unset_hook t name = do
    guard refused (check_hook_name name)
    guard invalid (check_target t)
    run_ok out cfg (unset_args t name)

  unfoldable pub unset_global_hook : Bytes → Op W HookError (Unit {0})
  unfolding check_hook_name run_ok
  unset_global_hook name = do
    guard refused (check_hook_name name)
    run_ok out cfg (codes "set-hook" ∷ codes "-g" ∷ codes "-u" ∷ codes "--" ∷ name ∷ [])

  -- The first loop of `hooks`: the lines of all listings.
  unfoldable pub hook_lines : List (List Bytes) → List Bytes → Op W HookError (List Bytes)
  unfolding run_lines
  hook_lines [] lines = done lines
  hook_lines (args ∷ cmds) lines = do got ← run_lines out cfg args; hook_lines cmds (lines ++ got)

  -- The last loop, over the hooks that are left; `all` are those that were parsed.
  unfoldable pub store_hooks : List Hook → List Hook → Dict → Op W HookError Dict
  unfolding hook_key decode_stored put
  store_hooks all [] hooks = done hooks
  store_hooks all (h ∷ hs) hooks = do
    command ← decode_stored out cfg h.command
    key ← decode_stored out cfg (hook_key all h)
    store_hooks all hs (put key command hooks)

  found_hooks : Result HookError (List Bytes) → Op W HookError Dict
  unfolding says_no_server says_missing parse_hooks store_hooks
  found_hooks (err e) = if says_no_server e || says_missing e then done [] else fail e
  found_hooks (ok lines) = let all = parse_hooks lines in store_hooks all all []

  unfoldable pub hooks : List (List Bytes) → Op W HookError Dict
  unfolding hook_lines found_hooks
  hooks cmds = do r ← attempt (hook_lines cmds []); found_hooks r

  unfoldable pub show_hooks : Target → Op W HookError Dict
  unfolding check_target show_commands hooks
  show_hooks t = do guard invalid (check_target t); hooks (show_commands hook_scopes t)

  unfoldable pub show_global_hooks : Op W HookError Dict
  unfolding show_global_commands hooks
  show_global_hooks = hooks (show_global_commands hook_scopes)
