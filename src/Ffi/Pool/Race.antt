-- ===== src/Ffi/Pool/Race.antt =====
-- Threads that claim and release one slot at the same time: `tryClaim` as its load and its
-- compare-and-exchange, with steps of other threads in between.
use nim_ffi.Base.{
  ℕ, ◌+◌, ◌%◌, ◌^◌, ◌≡◌, ◌≢◌, refl, ◌∙◌, sym, true, false, inl, inr, List, [], ◌∷◌, arith, ◌==◌,
  ==_iff, ==_false, ap, ◌⊎◌, Bool-cases, ℕ_discrete, if◌then◌else◌,
}
use nim_ffi.Ffi.Pool.{Slot, try_claim}

-- Where a thread stands: outside, behind the load with the generation that it read, or inside the
-- claim.
pub data Phase : Type 0 where
  outside : Phase
  loaded : (seen : ℕ) → Phase
  inside : Phase

pub record Claims : Type 0 where
  pub generation : ℕ
  pub phase : ℕ → Phase

pub data Move : Type 0 where
  load : Move
  exchange : Move
  release : Move

unfoldable pub go_to : ℕ → Phase → (ℕ → Phase) → ℕ → Phase
go_to t p phase u = if u == t then p else phase u

-- The load: an odd generation ends the attempt.
unfoldable pub load_phase : (generation : ℕ) → Phase
load_phase generation = if generation % 2 == 1 then outside else loaded generation

-- The exchange, of the generation that was read for the next one.
unfoldable pub exchange_claim : (seen generation : ℕ) → ℕ × Phase
exchange_claim seen generation =
    if generation == seen then ((seen + 1) % 2 ^ 64, inside) else (generation, outside)

-- A move that does not fit the thread's phase does nothing.
unfoldable pub move_phase : Move → (generation : ℕ) → Phase → ℕ × Phase
unfolding load_phase exchange_claim
move_phase load g outside = (g, load_phase g)
move_phase exchange g (loaded seen) = exchange_claim seen g
move_phase release g inside = ((g + 1) % 2 ^ 64, outside)
move_phase _ g p = (g, p)

unfoldable pub move : Move → ℕ → Claims → Claims
unfolding move_phase go_to
move m t s =
    let (g, p) = move_phase m s.generation (s.phase t) in
    record { generation = g; phase = go_to t p s.phase }

unfoldable pub moves : List (Move × ℕ) → Claims → Claims
unfolding move
moves [] s = s
moves (m ∷ ms) s = moves ms (move m.0 m.1 s)

-- Either no thread is inside, and the generation is even, or exactly one is, and it is odd.
pub data Exclusive (s : Claims) : Type 0 where
  nobody : (s.generation % 2 == 1) ≡ false → ((u : ℕ) → s.phase u ≢ inside) → Exclusive s
  owner :
      (t : ℕ)
      → (s.generation % 2 == 1) ≡ true
      → s.phase t ≡ inside
      → ((u : ℕ) → s.phase u ≡ inside → u ≡ t)
      → Exclusive s

-- Every generation that a thread has read and acts on is even.
abbrev pub EvenSeen : Claims → Type 0
EvenSeen s = (u seen : ℕ) → s.phase u ≡ loaded seen → (seen % 2 == 1) ≡ false

pub record Sound (s : Claims) : Type 0 where
  pub exclusive : Exclusive s
  pub even : EvenSeen s

-- What one thread does, by its phases before and behind it.
data Moved (g : ℕ) : Phase → ℕ → Phase → Type 0 where
  rests : (p : Phase) → Moved g p g p
  reads : (g % 2 == 1) ≡ false → Moved g outside g (loaded g)
  misses : (seen : ℕ) → Moved g (loaded seen) g outside
  claims : Moved g (loaded g) ((g + 1) % 2 ^ 64) inside
  leaves : Moved g inside ((g + 1) % 2 ^ 64) outside

move_phase-Moved : (m : Move) (g : ℕ) (p : Phase) → let r = move_phase m g p in Moved g p r.0 r.1
unfolding move_phase load_phase exchange_claim
move_phase-Moved load g outside = elim (Bool-cases (g % 2 == 1)) [
  | inl odd ↦ rw odd (rests outside)
  | inr even ↦ rw even (reads even)
]
move_phase-Moved load g (loaded seen) = rests (loaded seen)
move_phase-Moved load g inside = rests inside
move_phase-Moved exchange g outside = rests outside
move_phase-Moved exchange g (loaded seen) = elim (ℕ_discrete g seen) [
  | yes same ↦ rw ((==_iff g seen).1 same) (rw⁻¹ same claims)
  | no other ↦ rw (==_false g seen other) (misses seen)
]
move_phase-Moved exchange g inside = rests inside
move_phase-Moved release g outside = rests outside
move_phase-Moved release g (loaded seen) = rests (loaded seen)
move_phase-Moved release g inside = leaves

odd_next : (g : ℕ) → (g % 2 == 1) ≡ false → ((g + 1) % 2 ^ 64 % 2 == 1) ≡ true
odd_next g e = ground arith

even_next : (g : ℕ) → (g % 2 == 1) ≡ true → ((g + 1) % 2 ^ 64 % 2 == 1) ≡ false
even_next g e = ground arith

module _ (t : ℕ) (p : Phase) (phase : ℕ → Phase) where
  here : go_to t p phase t ≡ p
  unfolding go_to
  here = rw ((==_iff t t).1 refl) refl

  there : (u : ℕ) → u ≢ t → go_to t p phase u ≡ phase u
  unfolding go_to
  there u other = rw (==_false u t other) refl

  -- Every thread is at `t` or where it was.
  where_is :
      (u : ℕ) (q : Phase) → go_to t p phase u ≡ q → ((u ≡ t) × (p ≡ q)) ⊎ ((u ≢ t) × (phase u ≡ q))
  where_is u q e = elim (ℕ_discrete u t) [
    | yes same ↦ inl (same, sym here ∙ ap (go_to t p phase) (sym same) ∙ e)
    | no other ↦ inr (other, sym (there u other) ∙ e)
  ]

  stays_at : phase t ≡ p → (u : ℕ) → go_to t p phase u ≡ phase u
  stays_at at u = elim (ℕ_discrete u t) [
    | yes same ↦ rw same (here ∙ sym at)
    | no other ↦ there u other
  ]

  old_inside : p ≢ inside → (u : ℕ) → go_to t p phase u ≡ inside → (u ≢ t) × (phase u ≡ inside)
  old_inside out u e = elim (where_is u inside e) [ inl (same, q) ↦ absurd (out q) | inr old ↦ old ]

  old_seen :
      ((seen : ℕ) → p ≡ loaded seen → (seen % 2 == 1) ≡ false)
      → ((u seen : ℕ) → phase u ≡ loaded seen → (seen % 2 == 1) ≡ false)
      → (u seen : ℕ) → go_to t p phase u ≡ loaded seen
      → (seen % 2 == 1) ≡ false
  old_seen new old u seen e = elim (where_is u (loaded seen) e) [
    | inl (same, q) ↦ new seen q
    | inr (other, q) ↦ old u seen q
  ]

-- The claim is where it was, since thread `t` is not inside, before or behind its move.
outside-Exclusive :
    (t g : ℕ) (p p' : Phase) (phase : ℕ → Phase)
    → phase t ≡ p
    → p ≢ inside
    → p' ≢ inside
    → Exclusive (record { generation = g; phase = phase })
    → Exclusive (record { generation = g; phase = go_to t p' phase })
outside-Exclusive t g p p' phase at out out' (nobody even none_inside) =
    nobody even (λ u e. none_inside u (old_inside t p' phase out' u e).1)
outside-Exclusive t g p p' phase at out out' (owner k odd holds only) =
    owner k odd (there t p' phase k (λ same. out (sym at ∙ ap phase (sym same) ∙ holds)) ∙ holds)
      (λ u e. only u (old_inside t p' phase out' u e).1)

same-Sound :
    (t g : ℕ) (p : Phase) (phase : ℕ → Phase)
    → phase t ≡ p
    → Sound (record { generation = g; phase = phase })
    → Sound (record { generation = g; phase = go_to t p phase })
same-Sound t g p phase at s = record {
  exclusive = same_exclusive s.exclusive;
  even = λ u seen e. s.even u seen (sym (stays_at t p phase at u) ∙ e);
}
  where
    same_exclusive :
        Exclusive (record { generation = g; phase = phase })
        → Exclusive (record { generation = g; phase = go_to t p phase })
    same_exclusive (nobody even none_inside) =
        nobody even (λ u e. none_inside u (sym (stays_at t p phase at u) ∙ e))
    same_exclusive (owner k odd holds only) =
        owner k odd (stays_at t p phase at k ∙ holds)
          (λ u e. only u (sym (stays_at t p phase at u) ∙ e))

claims-Exclusive :
    (t g : ℕ) (phase : ℕ → Phase)
    → (g % 2 == 1) ≡ false
    → Exclusive (record { generation = g; phase = phase })
    → Exclusive (record { generation = (g + 1) % 2 ^ 64; phase = go_to t inside phase })
claims-Exclusive t g phase even (owner k odd holds only) = cc (even, odd)
claims-Exclusive t g phase even (nobody free none_inside) =
    owner t (odd_next g even) (here t inside phase) (λ u e.
      elim (where_is t inside phase u inside e) [
        | inl (same, q) ↦ same
        | inr (other, q) ↦ absurd (none_inside u q)
      ])

leaves-Exclusive :
    (t g : ℕ) (phase : ℕ → Phase)
    → phase t ≡ inside
    → Exclusive (record { generation = g; phase = phase })
    → Exclusive (record { generation = (g + 1) % 2 ^ 64; phase = go_to t outside phase })
leaves-Exclusive t g phase at (nobody free none_inside) = absurd (none_inside t at)
leaves-Exclusive t g phase at (owner k odd holds only) = nobody (even_next g odd) (λ u e.
    let old = old_inside t outside phase (λ q. cc q) u e in old.0 (only u old.1 ∙ sym (only t at)))

turn-Sound :
    (t g g' : ℕ) (p p' : Phase) (phase : ℕ → Phase)
    → phase t ≡ p
    → Moved g p g' p'
    → Sound (record { generation = g; phase = phase })
    → Sound (record { generation = g'; phase = go_to t p' phase })
turn-Sound t g _ _ _ phase at (rests p) s = same-Sound t g p phase at s
turn-Sound t g _ _ _ phase at (reads even) s = record {
  exclusive = outside-Exclusive t g outside (loaded g) phase at (λ e. cc e) (λ e. cc e) s.exclusive;
  even = old_seen t (loaded g) phase (λ seen e. cc (e, even)) s.even;
}
turn-Sound t g _ _ _ phase at (misses seen) s = record {
  exclusive =
      outside-Exclusive t g (loaded seen) outside phase at (λ e. cc e) (λ e. cc e) s.exclusive;
  even = old_seen t outside phase (λ seen e. cc e) s.even;
}
turn-Sound t g _ _ _ phase at claims s = record {
  exclusive = claims-Exclusive t g phase (s.even t g at) s.exclusive;
  even = old_seen t inside phase (λ seen e. cc e) s.even;
}
turn-Sound t g _ _ _ phase at leaves s = record {
  exclusive = leaves-Exclusive t g phase at s.exclusive;
  even = old_seen t outside phase (λ seen e. cc e) s.even;
}

-- Any threads that load, exchange and release in any order, from a slot that no thread, or one
-- thread, has claimed: at every time at most one thread is inside a claim, and the generation is
-- odd exactly while one is, even where a thread acts on a generation that it read long ago.
pub moves-Sound : (ms : List (Move × ℕ)) (s : Claims) → Sound s → Sound (moves ms s)
unfolding moves move
moves-Sound [] s sound = sound
moves-Sound (m ∷ ms) s sound = moves-Sound ms (move m.0 m.1 s) (
    turn-Sound m.1 s.generation _ (s.phase m.1) _ s.phase refl
      (move_phase-Moved m.0 s.generation (s.phase m.1)) sound)

-- With no other thread in between, a load and an exchange are `try_claim`.
try_claim_lem :
    (s : Slot)
    → let r = move_phase load s.generation outside in
      (move_phase exchange r.0 r.1).0 ≡ (try_claim s).1.generation
unfolding move_phase load_phase exchange_claim try_claim
try_claim_lem s = elim (Bool-cases (s.generation % 2 == 1)) [
  | inl odd ↦ rw odd refl
  | inr even ↦ rw even (rw ((==_iff s.generation s.generation).1 refl) refl)
]
