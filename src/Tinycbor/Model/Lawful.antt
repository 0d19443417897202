-- ===== src/Tinycbor/Model/Lawful.antt =====
-- The small codec does what the bindings rely on.
use nim_ffi.Base.{
  ℕ, ℤ, pos, negsuc, ◌≤◌, ◌≡◌, refl, ap, subst, true, inl, inr, List, [], ◌++◌, length, leb,
  Bool-cases, arith, ◌∷◌, some,
}
use nim_ffi.Tinycbor.Items.{Item, Items, nil, cons, append}
use nim_ffi.Tinycbor.Laws.{IsInt64, Wrote, Writes, Reads, Parses}
use nim_ffi.Tinycbor.Model.{Sink, emit, sink, print_all, parse, parse-print}
use nim_ffi.Tinycbor.Model.Source.{in_range, item_reader}

emit-Wrote :
    (e : Sink) (x : Item)
    → Wrote (λ (s : Sink). s.items) (λ (s : Sink). s.kind) (cons x nil) e (emit e x)
unfolding emit
emit-Wrote e x = elim (Bool-cases (leb (length (print_all (append e.items (cons x nil)))) e.room)) [
  | inl fits ↦ rw fits (λ ok. (refl, refl))
  | inr full ↦ rw full (λ ok. cc)
]

pub sink_Writes : (room_of : ℕ → ℕ) → Writes (sink room_of)
unfolding sink
sink_Writes room_of = record {
  items = λ e. e.items;
  kind = λ e. e.kind;
  mark = λ e. 0;
  init_items = λ capacity. refl;
  init_kind = λ capacity. refl;
  wrote_bool = λ e b. emit-Wrote e _;
  wrote_int = λ e n. emit-Wrote e _;
  wrote_text = λ e t. emit-Wrote e _;
  wrote_null = λ e. emit-Wrote e _;
  made_map = λ e n ok. (refl, refl, refl, refl);
  made_array = λ e n ok. (refl, refl, refl, refl);
  closed = λ s e inner opened. rw opened (emit-Wrote e _);
}

in_range_lem : (n : ℤ) → IsInt64 n → in_range n ≡ true
in_range_lem (pos n) p = ground arith
in_range_lem (negsuc n) p = ground arith

leb_lem : (m n : ℕ) → m ≤ n → leb m n ≡ true
leb_lem m n p = ground arith

pub item_Reads : Reads item_reader
unfolding item_reader
item_Reads = record {
  view = λ v. v;
  place = λ v. 0;
  valid = λ v x r e. rw e;
  advanced = λ v x r e. rw e (refl, refl, refl);
  at_map = λ v xs r e. rw e;
  found = λ v k xs r e. rw e (refl, refl);
  at_int = λ v n r e. rw e;
  got_int = λ v n r e p. rw (e, in_range_lem n p);
  at_bool = λ v b r e. rw e;
  got_bool = λ v b r e. rw e;
  at_text = λ v t r e. rw e;
  text_length = λ v t r e. rw e;
  text_copied = λ v t r capacity e p. rw (e, leb_lem (length t) capacity p);
  at_null = λ v r e. rw e;
  int_not_null = λ v n r e. rw e;
  text_not_null = λ v t r e. rw e;
  at_array = λ v xs r e. rw e;
  array_length = λ v xs r e. rw e;
  entered = λ v xs r e. rw e (refl, refl);
  left = λ v inner xs r e done here. rw e (refl, refl, refl);
}

append-nil : (s : List ℕ) → s ++ [] ≡ s
append-nil [] = refl
append-nil (x ∷ s) = rw (append-nil s)

parse-written : (xs : Items) → parse (length (print_all xs)) (print_all xs) ≡ some (xs, [])
parse-written xs =
    subst (λ s. parse (length (print_all xs)) s ≡ some (xs, [])) (append-nil (print_all xs))
      (parse-print (length (print_all xs)) xs [] (omega arith))

pub model_Parses : (room_of : ℕ → ℕ) (x : Item) → Parses (sink_Writes room_of) item_Reads x
unfolding sink_Writes item_Reads sink item_reader
model_Parses room_of x e at_top holds =
    rw (ap (λ xs. parse (length (print_all xs)) (print_all xs)) holds, parse-written (cons x nil))
      (refl, refl)
