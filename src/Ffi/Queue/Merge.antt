-- ===== src/Ffi/Queue/Merge.antt =====
-- `mergeQueues` with no producer in between: one chain of all requests, and empty queues.
use nim_ffi.Base.{
  ℕ, ◌+◌, ◌≤◌, ◌≡◌, refl, List, [], ◌∷◌, ◌++◌, append-nil, append_assoc, count, arith,
}
use nim_ffi.Ffi.Queue.{
  Ptr, Links, RequestQueue, RequestQueueBank, Spliced, splice_locked, splice_all, merge_queues,
}
use nim_ffi.Ffi.Queue.Chains.{Chain, last, Distinct, count-append}
use nim_ffi.Ffi.Queue.Stores.{Stores, AllStore, held, keep-AllStore}
use nim_ffi.Ffi.Queue.Locked.{Keeps-Stores, splice_locked-Moved}

abbrev pub all_empty : List (List ℕ) → List (List ℕ)
all_empty [] = []
all_empty (f ∷ fs) = [] ∷ all_empty fs

record AllMoved (fs : List (List ℕ)) (xs : List ℕ) (got : List RequestQueue × Links × Spliced)
    : Type 0 where
  queues : AllStore got.1 got.0 (all_empty fs)
  chain : Chain got.1 (got.2).head (xs ++ held fs)

empty-Stores : (next next' : Links) (q : RequestQueue) → Stores next q [] → Stores next' q []
empty-Stores next next' q s = record {
  chain = s.chain;
  tail = s.tail;
  size = s.size;
  bounded = s.bounded;
}

splice_all-AllMoved :
    (qs : List RequestQueue) (fs : List (List ℕ)) (next : Links) (s : Spliced) (xs : List ℕ)
    → AllStore next qs fs
    → Distinct (xs ++ held fs)
    → Chain next s.head xs
    → s.tail ≡ last xs
    → AllMoved fs xs (splice_all qs next s)
unfolding splice_all
splice_all-AllMoved [] [] next s xs all d c e = record { queues = tt; chain = rw (append-nil xs) c }
splice_all-AllMoved [] (f ∷ fs) next s xs all d c e = elim all [ ]
splice_all-AllMoved (q ∷ qs) [] next s xs all d c e = elim all [ ]
splice_all-AllMoved (q ∷ qs) (f ∷ fs) next s xs (first, all) d c e =
    let sizes : (a : ℕ) → count a xs + (count a f + count a (held fs)) ≤ 1 =
      λ a. omega (arith, d a, count-append a xs (f ++ held fs), count-append a f (held fs)) in
    let moved =
      splice_locked-Moved next q s f xs first (λ a. omega (arith, sizes a, count-append a xs f)) c
        e in
    let got = splice_locked q next s in
    let rest =
      splice_all-AllMoved qs fs got.1 got.2 (xs ++ f)
        (keep-AllStore next got.1 qs fs
          (λ g few. Keeps-Stores moved.keeps g (λ a. omega (arith, few a, sizes a))) all)
        (λ a. omega (arith, sizes a, count-append a (xs ++ f) (held fs), count-append a xs f))
        moved.chain moved.tail in
    record {
      queues = (empty-Stores got.1 _ got.0 moved.stores, rest.queues);
      chain = rw⁻¹ (append_assoc xs f (held fs)) (rest.chain);
    }

-- The returned chain and the bank behind it.
pub record Drained (fs : List (List ℕ)) (got : Ptr × RequestQueueBank) : Type 0 where
  pub chain : Chain (got.1).next got.0 (held fs)
  pub queues : AllStore (got.1).next (got.1).queues (all_empty fs)

-- `mergeQueues` of a bank whose queues represent FIFOs with no request in two places: the links
-- from the returned head run through exactly the requests of all FIFOs, queue after queue, each
-- in its order, and end at nil, and every queue of the bank is empty.
pub merge-Drained :
    (bank : RequestQueueBank) (fs : List (List ℕ))
    → AllStore bank.next bank.queues fs
    → Distinct (held fs)
    → Drained fs (merge_queues bank)
unfolding merge_queues
merge-Drained bank fs all d =
    let moved = splice_all-AllMoved bank.queues fs bank.next _ [] all d refl refl in
    record { chain = moved.chain; queues = moved.queues }
