-- ===== src/Ffi/Pool/Grown.antt =====
-- Slots of which the generations have grown.
use nim_ffi.Base.{ℕ, zero, suc, ◌+◌, ◌^◌, ◌≤◌, ◌<◌, ◌≡◌, refl, some, List, [], ◌∷◌, arith}
use nim_ffi.Ffi.Pool.{Slot, slot_at}

pub record Grown (k : ℕ) (s s' : Slot) : Type 0 where
  pub more : s.generation ≤ s'.generation
  pub bound : s'.generation ≤ s.generation + k

abbrev pub AllGrown : ℕ → List Slot → List Slot → Type 0
AllGrown k [] [] = Unit {0}
AllGrown k (s ∷ ss) (t ∷ ts) = Grown k s t × AllGrown k ss ts
AllGrown k _ _ = ⊥

-- No generation comes to the limit within `n` increments.
abbrev pub Below : ℕ → ℕ → List Slot → Type 0
Below limit n [] = Unit {0}
Below limit n (s ∷ ss) = (s.generation + n < limit) × Below limit n ss

abbrev pub width : ℕ
width = 2 ^ 64

pub same-AllGrown : (k : ℕ) (ss : List Slot) → AllGrown k ss ss
same-AllGrown k [] = tt
same-AllGrown k (s ∷ ss) = (record { more = omega arith; bound = omega arith }, same-AllGrown k ss)

pub Below-AllGrown :
    (limit k n : ℕ) (ss ts : List Slot)
    → AllGrown k ss ts
    → Below limit (k + n) ss
    → Below limit n ts
Below-AllGrown limit k n [] [] g b = tt
Below-AllGrown limit k n [] (t ∷ ts) g b = elim g [ ]
Below-AllGrown limit k n (s ∷ ss) [] g b = elim g [ ]
Below-AllGrown limit k n (s ∷ ss) (t ∷ ts) (g, gs) (b, bs) =
    (omega (arith, g.bound, b), Below-AllGrown limit k n ss ts gs bs)

pub less-Below :
    (limit limit' n n' : ℕ) (ss : List Slot)
    → limit ≤ limit'
    → n' ≤ n
    → Below limit n ss
    → Below limit' n' ss
less-Below limit limit' n n' [] more less b = tt
less-Below limit limit' n n' (s ∷ ss) more less (b, bs) =
    (omega (arith, b), less-Below limit limit' n n' ss more less bs)

pub both-AllGrown :
    (k n : ℕ) (ss ts us : List Slot) → AllGrown k ss ts → AllGrown n ts us → AllGrown (k + n) ss us
both-AllGrown k n [] [] [] g h = tt
both-AllGrown k n [] [] (u ∷ us) g h = elim h [ ]
both-AllGrown k n [] (t ∷ ts) us g h = elim g [ ]
both-AllGrown k n (s ∷ ss) [] us g h = elim g [ ]
both-AllGrown k n (s ∷ ss) (t ∷ ts) [] g h = elim h [ ]
both-AllGrown k n (s ∷ ss) (t ∷ ts) (u ∷ us) (g, gs) (h, hs) = (
  record { more = omega (arith, g.more, h.more); bound = omega (arith, g.bound, h.bound) },
  both-AllGrown k n ss ts us gs hs,
)

pub at-AllGrown :
    (k i : ℕ) (ss ts : List Slot) (s : Slot)
    → AllGrown k ss ts
    → slot_at i ss ≡ some s
    → (t : Slot) × (slot_at i ts ≡ some t) × Grown k s t
at-AllGrown k i [] ts s g e = cc e
at-AllGrown k i (u ∷ ss) [] s g e = elim g [ ]
at-AllGrown k zero (u ∷ ss) (t ∷ ts) s (g, gs) e = let same : u ≡ s = cc e in (t, refl, rw⁻¹ same g)
at-AllGrown k (suc i) (u ∷ ss) (t ∷ ts) s (g, gs) e = at-AllGrown k i ss ts s gs e

pub at-Below :
    (limit n i : ℕ) (ss : List Slot) (s : Slot)
    → Below limit n ss
    → slot_at i ss ≡ some s
    → s.generation + n < limit
at-Below limit n i [] s b e = cc e
at-Below limit n zero (t ∷ ss) s (b, bs) e = let same : t ≡ s = cc e in rw⁻¹ same b
at-Below limit n (suc i) (t ∷ ss) s (b, bs) e = at-Below limit n i ss s bs e
