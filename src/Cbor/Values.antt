-- ===== src/Cbor/Values.antt =====
-- The C values of the bindings, and the shape that every decoder has.
use nim_ffi.Base.{ℕ, none, some, List, [], ◌∷◌, ◌==◌, if◌then◌else◌}
use nim_ffi.Heap.{Heap, Ptr, free}
use nim_ffi.Heap.Laws.{Owned, owned_ptr}
use nim_ffi.Tinycbor.{CborError, failed}

-- A `const char*`: null, or a block with the bytes before the terminator that was put behind them.
-- No code writes through such a pointer once it is handed on, so the contents go with it.
pub data CStr : Type 0 where
  null : CStr
  chars : (block : ℕ) → List ℕ → CStr

abbrev pub address : CStr → Ptr
address null = none
address (chars p _) = some p

abbrev pub owned_str : CStr → Owned
owned_str s = owned_ptr (address s)

-- The bytes that `strlen` counts: those before the first NUL.
abbrev pub until_nul : List ℕ → List ℕ
until_nul [] = []
until_nul (c ∷ s) = if c == 0 then [] else c ∷ until_nul s

abbrev pub c_text : CStr → List ℕ
c_text null = []
c_text (chars _ s) = until_nul s

-- `do { free((void*)p); p = NULL; } while (0)`, the release of every string field.
unfoldable pub free_str : CStr → Heap → CStr × Heap
free_str s h = (null, free (address s) h)

-- `NimFfiBytes`.
pub record NimFfiBytes : Type 0 where
  pub block : Ptr
  pub content : List ℕ
  pub len : ℕ

abbrev pub no_bytes : NimFfiBytes
no_bytes = record { block = none; content = []; len = 0 }

-- The test for a null pointer, and the release behind it.
unfoldable pub free_block : Ptr → NimFfiBytes → Heap → NimFfiBytes × Heap
free_block none v h = (v, h)
free_block (some p) v h = (record v { block = none; len = 0 }, free (some p) h)

unfoldable pub free_bytes : NimFfiBytes → Heap → NimFfiBytes × Heap
unfolding free_block
free_bytes v h = free_block v.block v h

-- An iterator, the value that is decoded into, and the heap.
pub record Cursor (V X : Type 0) : Type 0 where
  pub it : V
  pub out : X
  pub heap : Heap

abbrev pub Decoder : Type 0 → Type 0 → Type 0
Decoder V X = Cursor V X → CborError × Cursor V X

abbrev pub Encoder : Type 0 → Type 0
Encoder E = E → CborError × E

-- `if (err) return err;` between two calls.
module _ {S : Type 0} where
  abbrev pub and_then : CborError × S → (S → CborError × S) → CborError × S
  and_then r k = if failed r.0 then r else k r.1

  infixr 5 ◌>>◌
  unfoldable pub ◌>>◌ : (S → CborError × S) → (S → CborError × S) → S → CborError × S
  (f >> g) s = and_then (f s) g
