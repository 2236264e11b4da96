-- ===== src/Config/Bounds.antt =====
-- The options of options.go, whatever their values and their order.
use gotmucks.Base.{List, [], ◌∷◌, ◌≢◌, arith, Bytes, Option, none, some}
use gotmucks.Base.Int.{ℤ, pos, ◌<ℤ◌}
use gotmucks.Ids.{SessionId}
use gotmucks.Config.{
  Config, Setting, configure, new_config, default_config, with_exec_prefix, with_binary,
  with_socket_path, with_socket_name, with_env, without_parent_env, with_control_args, with_attach,
  with_event_buffer, with_output_buffer, with_close_timeout, without_version_check,
  with_double_control_mode,
}

-- The options that the package has.
pub data Provided : Type 0 where
  exec_prefix control_args env : List Bytes → Provided
  binary socket_path socket_name : Bytes → Provided
  attach : SessionId → Provided
  event_buffer output_buffer close_timeout : ℤ → Provided
  no_parent_env no_version_check double_control nil : Provided

abbrev pub setting : Provided → Option Setting
setting (exec_prefix args) = some (with_exec_prefix args)
setting (control_args args) = some (with_control_args args)
setting (env e) = some (with_env e)
setting (binary path) = some (with_binary path)
setting (socket_path path) = some (with_socket_path path)
setting (socket_name name) = some (with_socket_name name)
setting (attach id) = some (with_attach id)
setting (event_buffer n) = some (with_event_buffer n)
setting (output_buffer n) = some (with_output_buffer n)
setting (close_timeout d) = some (with_close_timeout d)
setting no_parent_env = some without_parent_env
setting no_version_check = some without_version_check
setting double_control = some with_double_control_mode
setting nil = none

abbrev pub settings : List Provided → List (Option Setting)
settings [] = []
settings (o ∷ os) = setting o ∷ settings os

-- There is a binary to run, and every channel and timeout is above zero.
abbrev pub IsUsable : Config → Type 0
IsUsable c =
    (c.binary ≢ [])
    × (pos 0 <ℤ c.event_buffer)
    × (pos 0 <ℤ c.output_buffer)
    × (pos 0 <ℤ c.close_timeout)

configure-IsUsable :
    (os : List Provided) (c : Config) → IsUsable c → IsUsable (configure (settings os) c)
unfolding configure
configure-IsUsable [] c h = h
configure-IsUsable (exec_prefix args ∷ os) c h = configure-IsUsable os _ h
configure-IsUsable (control_args args ∷ os) c h = configure-IsUsable os _ h
configure-IsUsable (env e ∷ os) c h = configure-IsUsable os _ h
configure-IsUsable (binary path ∷ os) c h =
    configure-IsUsable os (with_binary path c) (ground arith)
configure-IsUsable (socket_path path ∷ os) c h = configure-IsUsable os _ h
configure-IsUsable (socket_name name ∷ os) c h = configure-IsUsable os _ h
configure-IsUsable (attach id ∷ os) c h = configure-IsUsable os _ h
configure-IsUsable (event_buffer n ∷ os) c h =
    configure-IsUsable os (with_event_buffer n c) (ground arith)
configure-IsUsable (output_buffer n ∷ os) c h =
    configure-IsUsable os (with_output_buffer n c) (ground arith)
configure-IsUsable (close_timeout d ∷ os) c h =
    configure-IsUsable os (with_close_timeout d c) (ground arith)
configure-IsUsable (no_parent_env ∷ os) c h = configure-IsUsable os _ h
configure-IsUsable (no_version_check ∷ os) c h = configure-IsUsable os _ h
configure-IsUsable (double_control ∷ os) c h = configure-IsUsable os _ h
configure-IsUsable (nil ∷ os) c h = configure-IsUsable os c h

-- Whatever options a client is given, nil options among them, in whatever order and with whatever
-- values, its configuration has a binary that is not empty, and buffer sizes and a close timeout
-- above zero.
pub new_config-IsUsable : (os : List Provided) → IsUsable (new_config (settings os))
unfolding new_config
new_config-IsUsable os = configure-IsUsable os default_config (ground arith)
