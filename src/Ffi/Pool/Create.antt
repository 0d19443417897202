-- ===== src/Ffi/Pool/Create.antt =====
-- The outcomes of `createFFIContext`.
use nim_ffi.Base.{
  ℕ, zero, suc, ◌+◌, ◌%◌, ◌^◌, ◌<◌, ◌≡◌, ◌≢◌, refl, sym, ap, ◌∙◌, Bool, true, false, some, inl, inr,
  List, [], ◌∷◌, arith, ◌==◌, Bool-cases,
}
use nim_ffi.Ffi.Token.{make_token}
use nim_ffi.Ffi.Pool.{
  Slot, active, Created, created, start_failed, init_failed, exhausted, slot_at, is_in_use,
  try_claim, release_claim, mark_as_active, create_claimed, create_from, create_ffi_context,
}

-- A claimed slot that serves: its threads run, and its token is for its generation.
pub record Serves (k : ℕ) (s : Slot) : Type 0 where
  pub used : is_in_use s ≡ true
  pub threads : s.threads_up ≡ true
  pub resources : s.initialized ≡ true
  pub lifecycle : s.lifecycle ≡ active
  pub token : s.token ≡ make_token k s.generation

-- Slot `k` was free, all before it were in use, and it serves; the others are as before.
pub record Handed (i k : ℕ) (ss ts : List Slot) : Type 0 where
  pub index : ℕ
  pub place : k ≡ i + index
  pub old : Slot
  pub at : slot_at index ss ≡ some old
  pub free : is_in_use old ≡ false
  pub new : Slot
  pub now : slot_at index ts ≡ some new
  pub serves : Serves k new
  pub first : (m : ℕ) (u : Slot) → m < index → slot_at m ss ≡ some u → is_in_use u ≡ true
  pub others : (m : ℕ) → m ≢ index → slot_at m ts ≡ slot_at m ss

abbrev pub AllUsed : List Slot → Type 0
AllUsed [] = Unit {0}
AllUsed (s ∷ ss) = (is_in_use s ≡ true) × AllUsed ss

-- The same slots are in use.
abbrev pub SameUse : List Slot → List Slot → Type 0
SameUse [] [] = Unit {0}
SameUse (s ∷ ss) (t ∷ ts) = (is_in_use t ≡ is_in_use s) × SameUse ss ts
SameUse _ _ = ⊥

abbrev pub Ends : ℕ → List Slot → Created → List Slot → Type 0
Ends i ss (created k) ts = Handed i k ss ts
Ends i ss start_failed ts = SameUse ss ts
Ends i ss init_failed ts = SameUse ss ts
Ends i ss exhausted ts = (ts ≡ ss) × AllUsed ss

abbrev EndsOne : ℕ → Created → Slot → Type 0
EndsOne i (created k) s = (k ≡ i) × Serves i s
EndsOne i start_failed s = is_in_use s ≡ false
EndsOne i init_failed s = is_in_use s ≡ false
EndsOne i exhausted s = ⊥

claimed_parity : (g : ℕ) → (g % 2 == 1) ≡ false → ((g + 1) % 2 ^ 64 % 2 == 1) ≡ true
claimed_parity g e = ground arith

released_parity : (g : ℕ) → (g % 2 == 1) ≡ true → ((g + 1) % 2 ^ 64 % 2 == 1) ≡ false
released_parity g e = ground arith

create_claimed-EndsOne :
    (starts : Bool) (i : ℕ) (s : Slot)
    → is_in_use s ≡ true
    → let r = create_claimed starts i s in EndsOne i r.0 r.1
unfolding create_claimed is_in_use release_claim mark_as_active
create_claimed-EndsOne starts i s used = go s.initialized s.threads_up starts refl refl refl
  where
    go :
        (b u t : Bool)
        → s.initialized ≡ b
        → s.threads_up ≡ u
        → starts ≡ t
        → let r = create_claimed starts i s in EndsOne i r.0 r.1
    go true true t e f h =
        simp (e, f)
          (
            refl,
            record {
              used = used;
              threads = refl;
              resources = refl;
              lifecycle = refl;
              token = refl;
            },
          )
    go true false true e f h =
        simp (e, f, h)
          (
            refl,
            record {
              used = used;
              threads = refl;
              resources = refl;
              lifecycle = refl;
              token = refl;
            },
          )
    go true false false e f h = simp (e, f, h) (released_parity s.generation used)
    go false u true e f h =
        simp (e, h)
          (
            refl,
            record {
              used = used;
              threads = refl;
              resources = refl;
              lifecycle = refl;
              token = refl;
            },
          )
    go false u false e f h = simp (e, h) (released_parity s.generation used)

same-SameUse : (ss : List Slot) → SameUse ss ss
same-SameUse [] = tt
same-SameUse (s ∷ ss) = (refl, same-SameUse ss)

-- The slot at hand was free and was tried.
here-Ends :
    (i : ℕ) (s t : Slot) (ss : List Slot) (o : Created)
    → is_in_use s ≡ false
    → EndsOne i o t
    → Ends i (s ∷ ss) o (t ∷ ss)
here-Ends i s t ss (created k) free e = record {
  index = 0;
  place = omega (arith, e.0);
  old = s;
  at = refl;
  free = free;
  new = t;
  now = refl;
  serves = rw (e.0) (e.1);
  first = λ m u less at. absurd (omega (arith, less));
  others = λ m other. later m other;
}
  where
    later : (m : ℕ) → m ≢ 0 → slot_at m (t ∷ ss) ≡ slot_at m (s ∷ ss)
    later zero other = absurd (other refl)
    later (suc m) other = refl
here-Ends i s t ss start_failed free e = (e ∙ sym free, same-SameUse ss)
here-Ends i s t ss init_failed free e = (e ∙ sym free, same-SameUse ss)
here-Ends i s t ss exhausted free e = elim e [ ]

-- The slot at hand is in use.
later-Ends :
    (i : ℕ) (s : Slot) (ss ts : List Slot) (o : Created)
    → is_in_use s ≡ true
    → Ends (suc i) ss o ts
    → Ends i (s ∷ ss) o (s ∷ ts)
later-Ends i s ss ts (created k) used e = record {
  index = suc e.index;
  place = omega (arith, e.place);
  old = e.old;
  at = e.at;
  free = e.free;
  new = e.new;
  now = e.now;
  serves = e.serves;
  first = before;
  others = apart;
}
  where
    before : (m : ℕ) (u : Slot) → m < suc e.index → slot_at m (s ∷ ss) ≡ some u → is_in_use u ≡ true
    before zero u less at = let same : s ≡ u = cc at in rw⁻¹ same used
    before (suc m) u less at = e.first m u (omega (arith, less)) at

    apart : (m : ℕ) → m ≢ suc e.index → slot_at m (s ∷ ts) ≡ slot_at m (s ∷ ss)
    apart zero other = refl
    apart (suc m) other = e.others m (λ same. other (ap suc same))
later-Ends i s ss ts start_failed used e = (refl, e)
later-Ends i s ss ts init_failed used e = (refl, e)
later-Ends i s ss ts exhausted used e = (ap (λ l. s ∷ l) e.0, (used, e.1))

create_from-Ends :
    (starts : Bool) (i : ℕ) (ss : List Slot) → let r = create_from starts i ss in Ends i ss r.0 r.1
unfolding create_from try_claim is_in_use
create_from-Ends starts i [] = (refl, tt)
create_from-Ends starts i (s ∷ ss) = elim (Bool-cases (s.generation % 2 == 1)) [
  | inl busy ↦ rw busy (
      later-Ends i s ss (create_from starts (suc i) ss).1 (create_from starts (suc i) ss).0 busy
        (create_from-Ends starts (suc i) ss))
  | inr free ↦
      let claimed = record s { generation = (s.generation + 1) % 2 ^ 64 } in
      let r = create_claimed starts i claimed in
      rw free (
        here-Ends i s r.1 ss r.0 free
          (create_claimed-EndsOne starts i claimed (claimed_parity s.generation free)))
]

pub create_ffi_context-Ends :
    (starts : Bool) (ss : List Slot) → let r = create_ffi_context starts ss in Ends 0 ss r.0 r.1
unfolding create_ffi_context
create_ffi_context-Ends starts ss = create_from-Ends starts 0 ss
