-- ===== src/Tinycbor/Items.antt =====
-- CBOR data items, as far as the bindings use them, and the lists of items in a container or in
-- front of an iterator. A map's items are its keys and values in turn.
use nim_ffi.Base.{ℕ, ℤ, suc, Bool, false, List, list_eq, if◌then◌else◌}

mutual
  pub data Item : Type 0 where
    int : ℤ → Item
    text : List ℕ → Item
    bytes : List ℕ → Item
    bool : Bool → Item
    null : Item
    double : ℕ → Item
    float : ℕ → Item
    array : Items → Item
    map : Items → Item

  pub data Items : Type 0 where
    nil : Items
    cons : Item → Items → Items

pub data Shape : Type 0 where
  map_shape : Shape
  array_shape : Shape

-- What an encoder writes for: a buffer, or a container that was opened on the encoder of that mark.
pub data Kind : Type 0 where
  top : Kind
  within : Shape → (mark : ℕ) → Kind

-- The container of that shape.
abbrev pub contents : Shape → Items → Item
contents map_shape xs = map xs
contents array_shape xs = array xs

abbrev pub append : Items → Items → Items
append nil ys = ys
append (cons x xs) ys = cons x (append xs ys)

abbrev pub size : Items → ℕ
size nil = 0
size (cons x xs) = suc (size xs)

abbrev pub is_key : List ℕ → Item → Bool
is_key k (text t) = list_eq k t
is_key k _ = false

-- The items from the value of the first entry with that key on; none if there is none.
abbrev pub find : List ℕ → Items → Items
find k nil = nil
find k (cons x nil) = nil
find k (cons x (cons v rest)) = if is_key k x then cons v rest else find k rest
