-- ===== src/Binding/Protocol.antt =====
-- The library's side of an exchange, the contract of nim_ffi_prelude.h and of the status codes in
-- nim_ffi_cbor.h, and what a trampoline does with the deliveries of one call.
use nim_ffi.Base.{ℕ, none, ◌≡◌, ◌≢◌, refl, ◌⊎◌, inl, inr, true, some, Option, List, [], ◌∷◌, ◌++◌}
use nim_ffi.Heap.Laws.{Owned, Gains, Swaps, Holds, owned_ptr}
use nim_ffi.Binding.Reply.{Reply, World, CallBox, Delivery, ret_missing_callback, ret_stale_warn}
use nim_ffi.Binding.Call.{Answer, Host, deliver_all}

-- Progress pings, and then one terminal delivery.
abbrev pub Complete : List Delivery → Type 0
Complete [] = ⊥
Complete (d ∷ ds) =
    ((d.ret ≡ ret_stale_warn) × Complete ds) ⊎ ((d.ret ≢ ret_stale_warn) × (ds ≡ []))

abbrev pub Pings : List Delivery → Type 0
Pings [] = Unit {0}
Pings (d ∷ ds) = (d.ret ≡ ret_stale_warn) × Pings ds

-- The library's side: either it says that no delivery will come, or pings and one terminal
-- delivery come, split in any way between during and after the call.
abbrev pub Protocol : Answer → List Delivery → Type 0
Protocol a later =
    ((a.ret ≡ ret_missing_callback) × (a.fires ≡ []))
    ⊎ ((a.ret ≢ ret_missing_callback) × Complete (a.fires ++ later))

-- Which blocks stay allocated behind a reply: none at all.
abbrev pub NoneLeft : {X : Type 0} → Reply X → Owned → Type 0
NoneLeft r o = (a : ℕ) → o a ≡ 0

-- One more reply, with the box's `user_data`, and the box freed for what is left.
pub record OneMore {X : Type 0} (Left : Reply X → Owned → Type 0) (box : CallBox) (w w' : World X)
    : Type 0 where
  pub kept : Owned
  pub heap : Swaps (owned_ptr (some box.block)) kept w.heap w'.heap
  pub reply : Reply X
  pub left : Left reply kept
  pub told : w'.replies ≡ w.replies ++ reply ∷ []
  pub addressed : reply.user_data ≡ box.user_data

-- What the exchange relies on of a trampoline.
pub record Handles {X : Type 0} (Left : Reply X → Owned → Type 0)
    (tramp : CallBox → Delivery → World X → World X) : Type 0 where
  pub ping :
      (box : CallBox) (d : Delivery) (w : World X) → d.ret ≡ ret_stale_warn → tramp box d w ≡ w
  pub once :
      (box : CallBox) (d : Delivery) (w : World X)
      → d.ret ≢ ret_stale_warn
      → box.has_fn ≡ true
      → Holds (owned_ptr (some box.block)) w.heap
      → OneMore Left box w (tramp box d w)
  pub unanswered : (r : Reply X) → r.reply ≡ none → Left r (λ _. 0)

-- The exchange ended with one reply, with the host's `user_data`, and with the blocks that there
-- were before and those that the reply leaves.
pub data Settled {X : Type 0} (Left : Reply X → Owned → Type 0) (host : Host) (w : World X)
    : Option (World X) → Type 0 where
  settled :
      {w' : World X} (r : Reply X) (kept : Owned)
      → Left r kept
      → Gains kept w.heap w'.heap
      → w'.replies ≡ w.replies ++ r ∷ []
      → r.user_data ≡ host.user_data
      → Settled Left host w (some w')

append-eq-nil : (xs ys : List Delivery) → xs ++ ys ≡ [] → (xs ≡ []) × (ys ≡ [])
append-eq-nil [] ys e = (refl, e)
append-eq-nil (x ∷ xs) ys e = cc

pub split-Complete :
    (xs ys : List Delivery)
    → Complete (xs ++ ys)
    → (Complete xs × (ys ≡ [])) ⊎ (Pings xs × Complete ys)
split-Complete [] ys all = inr (tt, all)
split-Complete (d ∷ xs) ys (inr (terminal, e)) =
    let none_left = append-eq-nil xs ys e in inl (inr (terminal, none_left.0), none_left.1)
split-Complete (d ∷ xs) ys (inl (ping, all)) = elim (split-Complete xs ys all) [
  | inl (done, e) ↦ inl (inl (ping, done), e)
  | inr (pings, rest) ↦ inr ((ping, pings), rest)
]

module _ {X : Type 0} (Left : Reply X → Owned → Type 0)
    (tramp : CallBox → Delivery → World X → World X) (handles : Handles Left tramp) where
  pub deliver-Pings :
      (box : CallBox) (ds : List Delivery) (w : World X) → Pings ds → deliver_all tramp box ds w ≡ w
  unfolding deliver_all
  deliver-Pings box [] w p = refl
  deliver-Pings box (d ∷ ds) w p = rw (handles.ping box d w p.0) (deliver-Pings box ds w p.1)

  pub deliver-Complete :
      (box : CallBox) (ds : List Delivery) (w : World X)
      → Complete ds
      → box.has_fn ≡ true
      → Holds (owned_ptr (some box.block)) w.heap
      → OneMore Left box w (deliver_all tramp box ds w)
  unfolding deliver_all
  deliver-Complete box [] w p fn held = absurd p
  deliver-Complete box (d ∷ ds) w (inl (ping, rest)) fn held =
      rw (handles.ping box d w ping) (deliver-Complete box ds w rest fn held)
  deliver-Complete box (d ∷ ds) w (inr (terminal, e)) fn held =
      rw e (handles.once box d w terminal fn held)
