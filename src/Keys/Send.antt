-- ===== src/Keys/Send.antt =====
-- `SendKeys`, `SendText` and `SendLine` of keys.go. Running a tmux command is a parameter: it takes
-- what there is outside to what there is afterwards, and to an error if the command failed.
use gotmucks.Base.{
  ℕ, suc, true, false, List, [], ◌∷◌, ◌++◌, ◌≡◌, ◌≢◌, refl, sym, ap, append-nil, append_assoc, ◌∙◌,
  arith, Bytes, Option, none, some, codes, All,
}
use gotmucks.Ids.{PaneId, IdError, check_id, valid_id, pane_sigil, pane}
use gotmucks.Keys.{Key, KeyRun, literal, enter, key_valid, kind_flag, all_args, batch_keys}

pub data SendError (E : Type 0) : Type 0 where
  bad_pane : IdError → SendError E
  empty_key : ℕ → SendError E
  failed : E → SendError E

-- The index of the first key that is empty.
unfoldable pub first_invalid : ℕ → List Key → Option ℕ
first_invalid i [] = none
first_invalid i (k ∷ ks) =
    let rest = first_invalid (suc i) ks in elim (key_valid k) [ false ↦ some i | true ↦ rest ]

abbrev flag_args : Option Bytes → List Bytes
flag_args none = []
flag_args (some f) = f ∷ []

-- The command for one run.
unfoldable pub run_args : PaneId → KeyRun → List Bytes
run_args id r =
    codes "send-keys"
    ∷ (flag_args (kind_flag r.kind) ++ codes "-t" ∷ id ∷ codes "--" ∷ all_args r.keys)

module _ {W E : Type 0} (run_ok : W → List Bytes → W × Option E) where
  unfoldable pub send_runs : W → PaneId → List KeyRun → W × Option (SendError E)
  send_runs w id [] = (w, none)
  send_runs w id (r ∷ rs) =
      let (w', e) = run_ok w (run_args id r) in
      elim e [ some e ↦ (w', some (failed e)) | none ↦ send_runs w' id rs ]

  -- The keys behind the check of the pane, then behind the check of the keys.
  send_checked : W → PaneId → List Key → Option ℕ → W × Option (SendError E)
  unfolding send_runs
  send_checked w id ks (some i) = (w, some (empty_key i))
  send_checked w id ks none = send_runs w id (batch_keys ks)

  send_to : W → PaneId → List Key → Option IdError → W × Option (SendError E)
  unfolding send_checked first_invalid
  send_to w id ks (some e) = (w, some (bad_pane e))
  send_to w id [] none = (w, none)
  send_to w id (k ∷ ks) none = send_checked w id (k ∷ ks) (first_invalid 0 (k ∷ ks))

  unfoldable pub send_keys : W → PaneId → List Key → W × Option (SendError E)
  unfolding send_to check_id
  send_keys w id ks = send_to w id ks (check_id id pane_sigil pane)

  unfoldable pub send_text : W → PaneId → Bytes → W × Option (SendError E)
  unfolding send_keys
  send_text w id [] = send_keys w id []
  send_text w id (c ∷ s) = send_keys w id (literal (c ∷ s) ∷ [])

  unfoldable pub send_line : W → PaneId → Bytes → W × Option (SendError E)
  unfolding send_keys
  send_line w id [] = send_keys w id (enter ∷ [])
  send_line w id (c ∷ s) = send_keys w id (literal (c ∷ s) ∷ enter ∷ [])

-- A runner that succeeds and keeps the commands that it was given.
abbrev pub records : List (List Bytes) → List Bytes → List (List Bytes) × Option (Unit {0})
records log args = (log ++ args ∷ [], none)

-- The commands for the runs, in order.
abbrev pub commands : PaneId → List KeyRun → List (List Bytes)
commands id [] = []
commands id (r ∷ rs) = run_args id r ∷ commands id rs

send_runs-records :
    (log : List (List Bytes)) (id : PaneId) (rs : List KeyRun)
    → send_runs records log id rs ≡ (log ++ commands id rs, none)
unfolding send_runs
send_runs-records log id [] = ap (λ l. (l, none)) (sym (append-nil log))
send_runs-records log id (r ∷ rs) =
    send_runs-records (log ++ run_args id r ∷ []) id rs
    ∙ ap (λ l. (l, none)) (append_assoc log (run_args id r ∷ []) (commands id rs))

abbrev pub IsSendable : List Key → Type 0
IsSendable = All (λ k. key_valid k ≡ true)

first_invalid-IsSendable : (i : ℕ) (ks : List Key) → IsSendable ks → first_invalid i ks ≡ none
unfolding first_invalid
first_invalid-IsSendable i [] h = refl
first_invalid-IsSendable i (k ∷ ks) h = ground (arith, first_invalid-IsSendable (suc i) ks h.1)

batch_keys_none : batch_keys [] ≡ []
unfolding batch_keys
batch_keys_none = refl

-- With a pane's identifier and no empty key, if no command fails every run is sent, in order, one
-- command each, and there is no error.
pub send_keys-records :
    (log : List (List Bytes)) (id : PaneId) (ks : List Key)
    → valid_id id pane_sigil ≡ true
    → IsSendable ks
    → send_keys records log id ks ≡ (log ++ commands id (batch_keys ks), none)
unfolding send_keys
send_keys-records log id [] v h = ground (arith, append-nil log, batch_keys_none)
send_keys-records log id (k ∷ ks) v h =
    ground
      (arith, first_invalid-IsSendable 0 (k ∷ ks) h, send_runs-records log id (batch_keys (k ∷ ks)))

-- SendLine of a text that is not empty to a pane's identifier, if no command fails, sends the text
-- literally and then the key Enter, and there is no error.
send_line-records :
    (log : List (List Bytes)) (id : PaneId) (c : ℕ) (s : Bytes)
    → valid_id id pane_sigil ≡ true
    → send_line records log id (c ∷ s) ≡ (
      log
          ++ (codes "send-keys" ∷ codes "-l" ∷ codes "-t" ∷ id ∷ codes "--" ∷ (c ∷ s) ∷ [])
            ∷ (codes "send-keys" ∷ codes "-t" ∷ id ∷ codes "--" ∷ codes "Enter" ∷ [])
            ∷ [],
      none,
    )
unfolding send_line key_valid batch_keys run_args kind_flag all_args
send_line-records log id c s v =
    send_keys-records log id (literal (c ∷ s) ∷ enter ∷ []) v (refl, (refl, tt))

first_invalid-found : (i : ℕ) (ks : List Key) → first_invalid i ks ≡ none → IsSendable ks
unfolding first_invalid
first_invalid-found i [] h = tt
first_invalid-found i (k ∷ ks) h = ground (arith, first_invalid-found (suc i) ks)

-- Where a key is empty, SendKeys returns an error and runs no command at all, whatever commands do.
pub send_keys_refused :
    {W E : Type 0} (run_ok : W → List Bytes → W × Option E) (w : W) (id : PaneId) (ks : List Key)
    → ¬ IsSendable ks
    → ((send_keys run_ok w id ks).0 ≡ w) × ((send_keys run_ok w id ks).1 ≢ none)
unfolding send_keys
send_keys_refused run_ok w id [] h = absurd (h tt)
send_keys_refused run_ok w id (k ∷ ks) h = ground (arith, first_invalid-found 0 (k ∷ ks))
