-- ===== src/Config.antt =====
-- options.go: how a client is configured, and the argument lists and environment of its processes.
-- A duration and an `int` are signed integers.
pub mod Bounds
use gotmucks.Base.{
  Bool, true, false, not, List, [], ◌∷◌, ◌++◌, Bytes, Option, none, some, codes, if◌then◌else◌,
  length, ltb,
}
use gotmucks.Base.Int.{ℤ, pos, ltb_ℤ}
use gotmucks.Ids.{SessionId}

pub record Config : Type 0 where
  pub binary : Bytes
  pub socket_path : Bytes
  pub socket_name : Bytes
  pub env : List Bytes
  pub inherit_env : Bool
  pub control_args : List Bytes
  pub attach : SessionId
  pub event_buffer : ℤ
  pub output_buffer : ℤ
  pub close_timeout : ℤ
  pub skip_version_check : Bool
  pub double_control : Bool
  pub exec_prefix : List Bytes

abbrev pub Setting : Type 0
Setting = Config → Config

abbrev pub default_config : Config
default_config = record {
  binary = codes "tmux";
  socket_path = [];
  socket_name = [];
  env = [];
  inherit_env = true;
  control_args = [];
  attach = [];
  event_buffer = pos 256;
  output_buffer = pos 64;
  close_timeout = pos 5000000000;
  skip_version_check = false;
  double_control = false;
  exec_prefix = [];
}

-- The loop of `newConfig`; `none` is a nil option.
unfoldable pub configure : List (Option Setting) → Config → Config
configure [] c = c
configure (none ∷ opts) c = configure opts c
configure (some opt ∷ opts) c = configure opts (opt c)

unfoldable pub new_config : List (Option Setting) → Config
unfolding configure
new_config opts = configure opts default_config

unfoldable pub attach_target : Config → SessionId
attach_target c = if ltb 0 (length c.control_args) then [] else c.attach

abbrev pub is_empty : Bytes → Bool
is_empty [] = true
is_empty (c ∷ s) = false

unfoldable pub global_args : Config → List Bytes
global_args c =
    if not (is_empty c.socket_path)
    then codes "-S" ∷ c.socket_path ∷ []
    else if not (is_empty c.socket_name)
    then codes "-L" ∷ c.socket_name ∷ []
    else []

-- `argv`: the arguments that tmux gets, and those of the process, which a prefix may come before.
unfoldable pub tmux_args : Config → List Bytes → List Bytes
unfolding global_args
tmux_args c args = global_args c ++ args

unfoldable pub argv : Config → List Bytes → List Bytes
unfolding tmux_args
argv c args = c.exec_prefix ++ tmux_args c args

-- `none` is the nil slice, with which a process has its parent's environment; `parent` is that.
unfoldable pub environ : List Bytes → Config → Option (List Bytes)
environ parent c =
    if not c.inherit_env
    then some c.env
    else if ltb 0 (length c.env)
    then some (parent ++ c.env)
    else none

abbrev pub with_exec_prefix : List Bytes → Setting
with_exec_prefix args c = record c { exec_prefix = args }

abbrev pub with_binary : Bytes → Setting
with_binary path c = if not (is_empty path) then record c { binary = path } else c

abbrev pub with_socket_path : Bytes → Setting
with_socket_path path c = record c { socket_path = path }

abbrev pub with_socket_name : Bytes → Setting
with_socket_name name c = record c { socket_name = name }

abbrev pub with_env : List Bytes → Setting
with_env env c = record c { env = c.env ++ env }

abbrev pub without_parent_env : Setting
without_parent_env c = record c { inherit_env = false }

abbrev pub with_control_args : List Bytes → Setting
with_control_args args c = record c { control_args = args }

abbrev pub with_attach : SessionId → Setting
with_attach id c = record c { attach = id }

abbrev pub with_event_buffer : ℤ → Setting
with_event_buffer n c = if ltb_ℤ (pos 0) n then record c { event_buffer = n } else c

abbrev pub with_output_buffer : ℤ → Setting
with_output_buffer n c = if ltb_ℤ (pos 0) n then record c { output_buffer = n } else c

abbrev pub with_close_timeout : ℤ → Setting
with_close_timeout d c = if ltb_ℤ (pos 0) d then record c { close_timeout = d } else c

abbrev pub without_version_check : Setting
without_version_check c = record c { skip_version_check = true }

abbrev pub with_double_control_mode : Setting
with_double_control_mode c = record c { double_control = true }

unfoldable pub control_flag : Config → Bytes
control_flag c = if c.double_control then codes "-CC" else codes "-C"

-- `controlCommand` of control.go.
unfoldable pub control_command : Config → List Bytes
unfolding attach_target
control_command c =
    if ltb 0 (length c.control_args)
    then c.control_args
    else if not (is_empty (attach_target c))
    then codes "attach-session" ∷ codes "-t" ∷ attach_target c ∷ []
    else codes "new-session" ∷ []

-- The arguments of the process that `Connect` starts.
unfoldable pub control_args : Config → List Bytes
unfolding argv control_flag control_command
control_args c = argv c (control_flag c ∷ control_command c)
