-- ===== src/Ffi/Queue/Chains.antt =====
-- Chains of requests that are linked through themselves, as lists.
use nim_ffi.Base.{
  ℕ, ◌+◌, ◌≤◌, ◌≡◌, refl, false, none, some, List, [], ◌∷◌, ◌++◌, count, arith, one_if, ==_iff,
  ◌==◌,
}
use nim_ffi.Ffi.Queue.{Ptr, Links, link}

-- From `p`, the links run through exactly these requests and end at nil.
abbrev pub Chain : Links → Ptr → List ℕ → Type 0
Chain next p [] = p ≡ none
Chain next p (x ∷ xs) = (p ≡ some x) × Chain next (next x) xs

abbrev pub last : List ℕ → Ptr
last [] = none
last (x ∷ []) = some x
last (x ∷ (y ∷ xs)) = last (y ∷ xs)

-- Nothing occurs twice.
abbrev pub Distinct : List ℕ → Type 0
Distinct xs = (a : ℕ) → count a xs ≤ 1

-- What two lists hold together.
pub count-append :
    (b : ℕ) (front back : List ℕ) → count b front + count b back ≡ count b (front ++ back)
count-append b [] back = omega arith
count-append b (f ∷ front) back = let shorter = count-append b front back in omega (arith, shorter)

pub one_if_same : (a : ℕ) → one_if a a ≡ 1
one_if_same a = ground arith

pub differ : (a b : ℕ) → one_if a b ≡ 0 → (b == a) ≡ false
differ a b e = ground arith

pub link-same : (a : ℕ) (p : Ptr) (next : Links) → link a p next a ≡ p
unfolding link
link-same a p next = rw ((==_iff a a).1 refl)

pub link-other : (a b : ℕ) (p : Ptr) (next : Links) → one_if a b ≡ 0 → link a p next b ≡ next b
unfolding link
link-other a b p next e = rw (differ a b e)

-- A link that is not in the chain may change.
pub link-Chain :
    (a : ℕ) (p : Ptr) (next : Links) (q : Ptr) (xs : List ℕ)
    → count a xs ≡ 0
    → Chain next q xs
    → Chain (link a p next) q xs
link-Chain a p next q [] e c = c
link-Chain a p next q (x ∷ xs) e (start, c) = (
  start,
  rw (link-other a x p next (omega (arith, e)))
      (link-Chain a p next (next x) xs (omega (arith, e)) c),
)

pub last-count : (xs : List ℕ) (t : ℕ) → last xs ≡ some t → 1 ≤ count t xs
last-count [] t e = cc e
last-count (x ∷ []) t e =
    let same : x ≡ t = cc e in
    let one : one_if t x ≡ 1 = rw same (one_if_same t) in omega (arith, one)
last-count (x ∷ (y ∷ xs)) t e = omega (arith, last-count (y ∷ xs) t e)

-- Writing the last link of a chain appends another one.
pub join-Chain :
    (next : Links) (p q : Ptr) (t : ℕ) (xs ys : List ℕ)
    → last xs ≡ some t
    → Distinct (xs ++ ys)
    → Chain next p xs
    → Chain next q ys
    → Chain (link t q next) p (xs ++ ys)
join-Chain next p q t [] ys e d c k = cc e
join-Chain next p q t (x ∷ []) ys e d (start, c) k =
    let same : x ≡ t = cc e in
    let one : one_if t x ≡ 1 = rw same (one_if_same t) in
    (start, rw (same, link-same t q next) (link-Chain t q next q ys (omega (arith, d t, one)) k))
join-Chain next p q t (x ∷ (y ∷ xs)) ys e d (start, c) k =
    let other =
      link-other t x q next
        (omega (arith, d t, count-append t (y ∷ xs) ys, last-count (y ∷ xs) t e)) in
    (start, rw other (join-Chain next (next x) q t (y ∷ xs) ys e (λ a. omega (arith, d a)) c k))
