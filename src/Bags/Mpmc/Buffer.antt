-- ===== src/Bags/Mpmc/Buffer.antt =====
-- What a sender hands over: bags/src/mpmc.rs, `SendBuffer`, `SendBufferContainer` and their impls.
use lockness.Prelude.{ℕ, Option, none, some, List, [], ◌∷◌, length}

-- A value, a `&mut Vec` or a `&mut ArrayVec`. A vector is listed from its last element, which
-- `pop` takes first.
pub data Buffer (T : Type 0) : Type 0 where
  value : T → Buffer T
  vec : List T → Buffer T
  array_vec : List T → Buffer T

-- `SendBuffer::Container`.
pub data Container (T : Type 0) : Type 0 where
  option : Option T → Container T
  vec : List T → Container T
  array_vec : List T → Container T

module _ {T : Type 0} where
  unfoldable pub available_items : Buffer T → ℕ × Container T
  available_items (value v) = (1, option (some v))
  available_items (Buffer.vec l) = (length l, Container.vec l)
  available_items (Buffer.array_vec l) = (length l, Container.array_vec l)

  -- The items that a container still holds, in the order in which they are taken.
  unfoldable pub items_of : Container T → List T
  items_of (option none) = []
  items_of (option (some v)) = v ∷ []
  items_of (Container.vec l) = l
  items_of (Container.array_vec l) = l

  -- `none` is the undefined behaviour of `unwrap_unchecked` on nothing.
  unfoldable pub take : Container T → Option (T × Container T)
  take (option none) = none
  take (option (some v)) = some (v, option none)
  take (Container.vec []) = none
  take (Container.vec (v ∷ l)) = some (v, Container.vec l)
  take (Container.array_vec []) = none
  take (Container.array_vec (v ∷ l)) = some (v, Container.array_vec l)

  unfoldable pub remit : Container T → Option (Buffer T)
  remit (option none) = none
  remit (option (some v)) = some (value v)
  remit (Container.vec l) = some (Buffer.vec l)
  remit (Container.array_vec l) = some (Buffer.array_vec l)
