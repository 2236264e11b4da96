-- ===== src/Keys.antt =====
-- keys.go: keys, and the runs of one kind in which `SendKeys` sends them. The text of a flag and of
-- the arguments is that of the tmux command line.
pub mod Runs
pub mod Send
use gotmucks.Base.{
  ℕ, Bool, true, false, not, ◌&&◌, ◌+◌, ◌-◌, ◌/◌, ◌%◌, List, [], ◌∷◌, ◌++◌, Bytes, Option, none,
  some, codes, ltb, if◌then◌else◌,
}

pub data KeyKind : Type 0 where
  key_named key_literal key_hex : KeyKind

-- The hexadecimal form of a byte is two digits.
pub record Key : Type 0 where
  pub kind : KeyKind
  pub text : Bytes
  pub hex : Bytes

abbrev pub named : Bytes → Key
named name = record { kind = key_named; text = name; hex = [] }

abbrev pub literal : Bytes → Key
literal s = record { kind = key_literal; text = s; hex = [] }

abbrev pub hex_key : Bytes → Key
hex_key b = record { kind = key_hex; text = []; hex = b }

abbrev pub enter : Key
enter = named (codes "Enter")

hex_digit : ℕ → ℕ
hex_digit n = if ltb n 10 then b'0' + n else b'a' + (n - 10)

unfoldable pub hex_args : Bytes → List Bytes
unfolding hex_digit
hex_args [] = []
hex_args (b ∷ bs) = (hex_digit (b / 16 % 16) ∷ hex_digit (b % 16) ∷ []) ∷ hex_args bs

-- `Key.args`.
unfoldable pub key_args : Key → List Bytes
unfolding hex_args
key_args k = elim k.kind [ key_hex ↦ hex_args k.hex | _ ↦ k.text ∷ [] ]

abbrev is_empty : Bytes → Bool
is_empty [] = true
is_empty (c ∷ s) = false

unfoldable pub key_valid : Key → Bool
key_valid k = elim k.kind [ key_hex ↦ not (is_empty k.hex) | _ ↦ not (is_empty k.text) ]

unfoldable pub kind_flag : KeyKind → Option Bytes
kind_flag key_literal = some (codes "-l")
kind_flag key_hex = some (codes "-H")
kind_flag key_named = none

unfoldable pub same_kind : KeyKind → KeyKind → Bool
same_kind key_named key_named = true
same_kind key_literal key_literal = true
same_kind key_hex key_hex = true
same_kind _ _ = false

pub record KeyRun : Type 0 where
  pub kind : KeyKind
  pub keys : List Key

-- One round of the loop of `batchKeys`: the key joins the last run, if that is of its kind.
unfoldable pub add_key : List KeyRun → Key → List KeyRun
unfolding same_kind
add_key [] k = (record { kind = k.kind; keys = k ∷ [] }) ∷ []
add_key (r ∷ []) k =
    if same_kind r.kind k.kind
    then (record r { keys = r.keys ++ k ∷ [] }) ∷ []
    else r ∷ (record { kind = k.kind; keys = k ∷ [] }) ∷ []
add_key (r ∷ s ∷ rs) k = r ∷ add_key (s ∷ rs) k

unfoldable pub batch_from : List KeyRun → List Key → List KeyRun
unfolding add_key
batch_from runs [] = runs
batch_from runs (k ∷ ks) = batch_from (add_key runs k) ks

unfoldable pub batch_keys : List Key → List KeyRun
unfolding batch_from
batch_keys = batch_from []

-- The arguments of the `send-keys` of one run.
unfoldable pub all_args : List Key → List Bytes
unfolding key_args
all_args [] = []
all_args (k ∷ ks) = key_args k ++ all_args ks
