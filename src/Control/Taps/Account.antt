-- ===== src/Control/Taps/Account.antt =====
-- The account of a pane's tap (control.go and control_reader.go): what was delivered to it, what its
-- consumer received, what it holds, and what `DroppedOutput` counts.
use gotmucks.Base.{
  ℕ, Bool, true, false, ◌+◌, ◌^◌, ◌<◌, ◌≤◌, ◌≢◌, ◌≡◌, refl, sym, ap, subst, ◌∙◌, arith, List, [],
  ◌∷◌, ◌++◌, Bytes, All, some, bytes_eq, bytes_eq_iff, Bool-cases, inl, inr, if◌then◌else◌, ltb,
  ltb→lt, length, length-append, append_assoc, append-nil,
}
use gotmucks.Base.Kept.{Kept, done, Kept-concat, Kept-skip}
use gotmucks.Ids.{PaneId, valid_id, pane_sigil}
use gotmucks.Control.{Conn, Tap}
use gotmucks.Control.Taps.{lookup_tap, wrap64, dropped_output}
use gotmucks.Control.Taps.Map.{IsMap}
use gotmucks.Control.Taps.Refine.{
  Use, delivers, opens, untaps, receives, offered, received, rest_of,
}
use gotmucks.Control.Taps.Uses.{use_all, pane_run, use_all-pane_run}

-- The account is right: what was received and is held is what was sent, in order, with some left
-- out; as many are left out as are counted; and no more is held than there is room for.
pub record Balances (sent got : List Bytes) (t : Tap) : Type 0 where
  pub in_order : Kept (got ++ t.items) sent
  pub counted : length (got ++ t.items) + t.total ≡ length sent
  pub within : length t.items ≤ t.cap
  pub is_open : t.closed ≡ false
  pub small : length sent < 2 ^ 64

abbrev kept_tap : Bytes → Tap → Tap
kept_tap b t = record t { items = t.items ++ b ∷ []; drops = 0 }

abbrev lost_tap : Tap → Tap
lost_tap t = record t { drops = wrap64 (t.drops + 1); total = wrap64 (t.total + 1) }

abbrev offered_open : Bytes → Tap → Tap
offered_open b t = if ltb (length t.items) t.cap then kept_tap b t else lost_tap t

length-concat : (xs : List Bytes) (b : Bytes) → length (xs ++ b ∷ []) ≡ length xs + 1
length-concat xs b = length-append xs (b ∷ [])

Balances-kept :
    (sent got : List Bytes) (b : Bytes) (t : Tap)
    → Balances sent got t
    → length (sent ++ b ∷ []) < 2 ^ 64
    → ltb (length t.items) t.cap ≡ true
    → Balances (sent ++ b ∷ []) got (record t { items = t.items ++ b ∷ []; drops = 0 })
Balances-kept sent got b t k s room =
    let moved = append_assoc got t.items (b ∷ []) in
    record {
      in_order = subst (λ l. Kept l (sent ++ b ∷ [])) moved (Kept-concat b k.in_order);
      counted =
          ap (λ l. length l + t.total) (sym moved)
          ∙ omega (arith, k.counted, length-concat (got ++ t.items) b, length-concat sent b);
      within = omega (arith, length-concat t.items b, ltb→lt (length t.items) t.cap room);
      is_open = k.is_open;
      small = s;
    }

Balances-lost :
    (sent got : List Bytes) (b : Bytes) (t : Tap) (n : ℕ)
    → Balances sent got t
    → length (sent ++ b ∷ []) < 2 ^ 64
    → Balances (sent ++ b ∷ []) got (record t { drops = n; total = wrap64 (t.total + 1) })
Balances-lost sent got b t n k s = record {
  in_order = Kept-skip b k.in_order;
  counted = omega (arith, k.counted, length-concat sent b, s);
  within = k.within;
  is_open = k.is_open;
  small = s;
}

offered_room :
    (b : Bytes) (t : Tap)
    → t.closed ≡ false
    → ltb (length t.items) t.cap ≡ true
    → offered b t ≡ record t { items = t.items ++ b ∷ []; drops = 0 }
offered_room b t o room =
    ap (λ z. if z then t else offered_open b t) o
    ∙ ap (λ z. if z then kept_tap b t else lost_tap t) room

offered_full :
    (b : Bytes) (t : Tap)
    → t.closed ≡ false
    → ltb (length t.items) t.cap ≡ false
    → offered b t ≡ record t { drops = wrap64 (t.drops + 1); total = wrap64 (t.total + 1) }
offered_full b t o full =
    ap (λ z. if z then t else offered_open b t) o
    ∙ ap (λ z. if z then kept_tap b t else lost_tap t) full

Balances-offered :
    (sent got : List Bytes) (b : Bytes) (t : Tap)
    → Balances sent got t
    → length (sent ++ b ∷ []) < 2 ^ 64
    → Balances (sent ++ b ∷ []) got (offered b t)
Balances-offered sent got b t k s = elim (Bool-cases (ltb (length t.items) t.cap)) [
  | inl room ↦
      subst (Balances (sent ++ b ∷ []) got) (sym (offered_room b t k.is_open room))
        (Balances-kept sent got b t k s room)
  | inr full ↦
      subst (Balances (sent ++ b ∷ []) got) (sym (offered_full b t k.is_open full))
        (Balances-lost sent got b t (wrap64 (t.drops + 1)) k s)
]

-- What a consumer gets from a tap.
abbrev pub first_of : List Bytes → List Bytes
first_of [] = []
first_of (x ∷ xs) = x ∷ []

first-rest : (got items : List Bytes) → got ++ items ≡ (got ++ first_of items) ++ rest_of items
first-rest got [] = sym (append-nil (got ++ []))
first-rest got (x ∷ items) = sym (append_assoc got (x ∷ []) items)

length-rest : (items : List Bytes) → length (rest_of items) ≤ length items
length-rest [] = omega arith
length-rest (x ∷ items) = omega arith

Balances-received :
    (sent got : List Bytes) (t : Tap)
    → Balances sent got t
    → Balances sent (got ++ first_of t.items) (received t)
Balances-received sent got t k =
    let same = first-rest got t.items in
    record {
      in_order = subst (λ l. Kept l sent) same k.in_order;
      counted = ap (λ l. length l + t.total) (sym same) ∙ k.counted;
      within = omega (arith, k.within, length-rest t.items);
      is_open = k.is_open;
      small = k.small;
    }

-- What the uses deliver to a pane.
unfoldable pub sent_to : PaneId → List Use → List Bytes
unfolding bytes_eq
sent_to id [] = []
sent_to id (delivers j b ext age ∷ us) =
    let rest = sent_to id us in if bytes_eq j id then b ∷ rest else rest
sent_to id (_ ∷ us) = sent_to id us

-- What the consumer of a pane's tap receives.
unfoldable pub got_from : PaneId → List Use → Tap → List Bytes
unfolding bytes_eq
got_from id [] t = []
got_from id (delivers j b ext age ∷ us) t =
    got_from id us (if bytes_eq j id then offered b t else t)
got_from id (receives j ∷ us) t =
    (if bytes_eq j id then first_of t.items else [])
    ++ got_from id us (if bytes_eq j id then received t else t)
got_from id (_ ∷ us) t = got_from id us t

abbrev Untouched : PaneId → Use → Type 0
Untouched id (untaps j) = j ≢ id
Untouched id _ = Unit

-- The tap is never closed by `Untap`.
abbrev pub IsTapped : PaneId → List Use → Type 0
IsTapped id = All (Untouched id)

abbrev Ends : ℕ → Bool → PaneId → List Use → List Bytes → List Bytes → Tap → Type 0
Ends cap closed id us sent got t =
    (t' : Tap) × (pane_run cap closed id us (some t) ≡ some t')
    × Balances (sent ++ sent_to id us) (got ++ got_from id us t) t'

unmoved : {A : Type 0} (a b : Bool) (x : A) → (if a then (if b then x else x) else x) ≡ x
unmoved true true x = refl
unmoved true false x = refl
unmoved false b x = refl

differs : (j id : PaneId) → j ≢ id → bytes_eq j id ≡ false
differs j id n = ground (arith, bytes_eq_iff j id)

shorter : (xs ys : List Bytes) → length (xs ++ ys) < 2 ^ 64 → length xs < 2 ^ 64
shorter xs ys h = omega (arith, length-append xs ys)

pane_run-Balances :
    (cap : ℕ) (closed : Bool) (id : PaneId) (us : List Use) (sent got : List Bytes) (t : Tap)
    → Balances sent got t
    → IsTapped id us
    → length (sent ++ sent_to id us) < 2 ^ 64
    → Ends cap closed id us sent got t
unfolding pane_run sent_to got_from
pane_run-Balances cap closed id [] sent got t k h s = (
  t,
  refl,
  subst (λ x. Balances x (got ++ []) t) (sym (append-nil sent))
      (subst (λ x. Balances sent x t) (sym (append-nil got)) k),
)
pane_run-Balances cap closed id (delivers j b ext age ∷ us) sent got t k h s =
    elim (Bool-cases (bytes_eq j id)) [
      | inr e ↦ rw e (
          pane_run-Balances cap closed id us sent got t k h.1 (
            subst (λ n. n < 2 ^ 64)
              (ap (λ z. length (sent ++ (if z then b ∷ sent_to id us else sent_to id us))) e) s))
      | inl e ↦
          let s' =
            subst (λ n. n < 2 ^ 64)
              (ap (λ z. length (sent ++ (if z then b ∷ sent_to id us else sent_to id us))) e
                ∙ ap length (sym (append_assoc sent (b ∷ []) (sent_to id us))))
              s in
          let sooner = shorter (sent ++ b ∷ []) (sent_to id us) s' in
          rw e (
            subst
              (λ x.
                (t' : Tap) × (pane_run cap closed id us (some (offered b t)) ≡ some t')
                × Balances x (got ++ got_from id us (offered b t)) t')
              (append_assoc sent (b ∷ []) (sent_to id us))
              (pane_run-Balances cap closed id us (sent ++ b ∷ []) got (offered b t)
                (Balances-offered sent got b t k sooner) h.1 s'))
    ]
pane_run-Balances cap closed id (opens j ∷ us) sent got t k h s =
    rw (unmoved (bytes_eq j id) (valid_id j pane_sigil) (some t))
      (pane_run-Balances cap closed id us sent got t k h.1 s)
pane_run-Balances cap closed id (untaps j ∷ us) sent got t k h s =
    rw (differs j id h.0) (pane_run-Balances cap closed id us sent got t k h.1 s)
pane_run-Balances cap closed id (receives j ∷ us) sent got t k h s =
    elim (Bool-cases (bytes_eq j id)) [
      | inr e ↦ rw e (pane_run-Balances cap closed id us sent got t k h.1 s)
      | inl e ↦ rw e (
          subst
            (λ x.
              (t' : Tap) × (pane_run cap closed id us (some (received t)) ≡ some t')
              × Balances (sent ++ sent_to id us) x t')
            (append_assoc got (first_of t.items) (got_from id us (received t)))
            (pane_run-Balances cap closed id us sent (got ++ first_of t.items) (received t)
              (Balances-received sent got t k) h.1 s))
    ]

-- A tap that is open and new.
abbrev pub IsNew : Tap → Type 0
IsNew t = (t.items ≡ []) × (t.total ≡ 0) × (t.closed ≡ false)

new-Balances : (t : Tap) → IsNew t → Balances [] [] t
new-Balances t n = record {
  in_order = subst (λ l. Kept l []) (sym n.0) done;
  counted = ap (λ l. length l + t.total) n.0 ∙ omega (arith, n.1);
  within = subst (λ l. length l ≤ t.cap) (sym n.0) (omega arith);
  is_open = n.2;
  small = omega arith;
}

-- From a new tap of a pane on, under any uses of any panes' taps of which none closes it, with
-- fewer than 2^64 deliveries: what its consumer receives and it holds is what was delivered to the
-- pane, in order, with some left out; DroppedOutput is how many are left out; and the tap holds no
-- more than its size.
pub use_all-Balances :
    (c : Conn) (us : List Use) (id : PaneId) (t : Tap)
    → IsMap c.taps
    → lookup_tap id c.taps ≡ some t
    → IsNew t
    → IsTapped id us
    → length (sent_to id us) < 2 ^ 64
    → (t' : Tap) × (lookup_tap id (use_all c us).taps ≡ some t')
      × Kept (got_from id us t ++ t'.items) (sent_to id us)
      × (length (got_from id us t ++ t'.items) + dropped_output (use_all c us) id
          ≡ length (sent_to id us))
      × (length t'.items ≤ t'.cap)
unfolding dropped_output
use_all-Balances c us id t m l n h s =
    let e = pane_run-Balances c.output_buffer c.closed id us [] [] t (new-Balances t n) h s in
    let found =
      (use_all-pane_run c us m).1 id ∙ ap (pane_run c.output_buffer c.closed id us) l ∙ e.1 in
    (e.0, found, e.2.in_order, rw found e.2.counted, e.2.within)
