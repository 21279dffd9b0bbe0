-- ===== src/Memory/Copying.antt =====
-- The shapes of which the generated DeepCopyInto and DeepCopy are made (zz_generated.deepcopy.go):
-- a pointer field, a slice field, the loop over the items of a list, and DeepCopy itself.
use capi_wx_one.Base.{Option, none, some, List, [], ◌∷◌}
use capi_wx_one.Memory.Heap.{
  Ptr, Heap, Slot, M, pure, ◌>>=◌, ◌>>◌, and_then, read, load, store, allocate,
}

module _ {C : Type 0} where
  -- `if in.F != nil { *out = new(T); **out = **in }`
  unfoldable pub copy_pointer : {T : Type 0} → Slot C T → Option Ptr → M C (Option Ptr)
  copy_pointer slot none = pure none
  copy_pointer slot (some p) = do x ← load slot p; q ← allocate slot x; pure (some q)

  -- `if in.F != nil { *out = make([]T, len(*in)); copy(*out, *in) }`: a slice is nil, or it points
  -- to an array.
  unfoldable pub copy_slice : {T : Type 0} → Slot C (List T) → Option Ptr → M C (Option Ptr)
  copy_slice slot none = pure none
  copy_slice slot (some p) = do xs ← load slot p; q ← allocate slot xs; pure (some q)

  -- `for i := range *in { (*in)[i].DeepCopyInto(&(*out)[i]) }`
  unfoldable pub copy_all : {T : Type 0} → (T → M C T) → List T → M C (List T)
  copy_all copy [] = pure []
  copy_all copy (x ∷ xs) = do y ← copy x; ys ← copy_all copy xs; pure (y ∷ ys)

  -- The items of a list: the array is made, then the loop fills it. Here the elements are copied
  -- first, since nothing reads the array in between.
  unfoldable pub copy_items :
      {T : Type 0} → Slot C (List T) → (T → M C T) → Option Ptr → M C (Option Ptr)
  unfolding copy_all
  copy_items slot copy none = pure none
  copy_items slot copy (some p) = do
    xs ← load slot p
    ys ← copy_all copy xs
    q ← allocate slot ys
    pure (some q)

  -- DeepCopy: nil for nil; else `out := new(T)`, and DeepCopyInto, which begins with `*out = *in`.
  unfoldable pub deep_copy : {T : Type 0} → Slot C T → (T → M C T) → Option Ptr → M C (Option Ptr)
  deep_copy slot copy none = pure none
  deep_copy slot copy (some p) = do
    x ← load slot p
    q ← allocate slot x
    y ← copy x
    store slot q y
    pure (some q)

  -- What a pointer, a slice and a list of items mean: the values that are read through them.
  abbrev pub read_pointer : {T : Type 0} → Slot C T → Option Ptr → Heap C → Option (Option T)
  read_pointer slot none h = some none
  read_pointer slot (some p) h = and_then (read slot p h) (λ x. some (some x))

  abbrev pub read_all : {T V : Type 0} → (T → Heap C → Option V) → List T → Heap C → Option (List V)
  read_all r [] h = some []
  read_all r (x ∷ xs) h = and_then (r x h) (λ v. and_then (read_all r xs h) (λ vs. some (v ∷ vs)))

  abbrev pub read_items :
      {T V : Type 0}
      → Slot C (List T)
      → (T → Heap C → Option V)
      → Option Ptr
      → Heap C
      → Option (Option (List V))
  read_items slot r none h = some none
  read_items slot r (some p) h =
      and_then (read slot p h) (λ xs. and_then (read_all r xs h) (λ vs. some (some vs)))

  abbrev pub read_object :
      {T V : Type 0} → Slot C T → (T → Heap C → Option V) → Option Ptr → Heap C → Option (Option V)
  read_object slot r none h = some none
  read_object slot r (some p) h =
      and_then (read slot p h) (λ x. and_then (r x h) (λ v. some (some v)))
