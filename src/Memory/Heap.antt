-- ===== src/Memory/Heap.antt =====
-- Go's memory: cells, pointers, and code that faults at a nil or dangling pointer.
use Prim.Native.Nat.{compare, Ordering}
use capi_wx_one.Base.{ℕ, suc, Bool, true, false, Option, none, some, ◌≡◌, if◌then◌else◌}

abbrev pub Ptr : Type 0
Ptr = ℕ

abbrev pub same_ptr : Ptr → Ptr → Bool
same_ptr p q = elim (compare p q) [ Ordering.eq ↦ true | _ ↦ false ]

-- `next` is the first cell that was not given out yet.
pub record Heap (C : Type 0) : Type 0 where
  pub next : ℕ
  pub cell : Ptr → Option C

-- The values of one type among those that a cell can hold.
pub record Slot (C : Type 0) (T : Type 0) : Type 0 where
  pub wrap : T → C
  pub unwrap : C → Option T
  pub unwrap-wrap : (x : T) → unwrap (wrap x) ≡ some x

abbrev pub and_then {ℓ κ} : {A : Type ℓ} {B : Type κ} → Option A → (A → Option B) → Option B
and_then none f = none
and_then (some a) f = f a

-- Code over the heap; `none` is a fault.
abbrev pub M : Type 0 → Type 0 → Type 0
M C A = Heap C → Option (A × Heap C)

module _ {C : Type 0} where
  abbrev pub pure : {A : Type 0} → A → M C A
  pure a h = some (a, h)

  abbrev pub continue : {A B : Type 0} → Option (A × Heap C) → (A → M C B) → Option (B × Heap C)
  continue none f = none
  continue (some (a, h)) f = f a h

  infixl 5 ◌>>=◌ ◌>>◌
  abbrev pub ◌>>=◌ : {A B : Type 0} → M C A → (A → M C B) → M C B
  ◌>>=◌ m f h = continue (m h) f

  abbrev pub ◌>>◌ : {B : Type 0} → M C (Unit {0}) → M C B → M C B
  m >> k = m >>= λ _. k

  abbrev pub write : (Ptr → Option C) → Ptr → C → Ptr → Option C
  write f p c q = if same_ptr p q then some c else f q

  module _ {T : Type 0} (slot : Slot C T) where
    -- `*p`, read
    abbrev pub read : Ptr → Heap C → Option T
    read p h = and_then (h.cell p) slot.unwrap

    abbrev pub load : Ptr → M C T
    load p h = and_then (read p h) (λ x. some (x, h))

    -- `*p = x` for a pointer that holds a value of the type
    abbrev pub store : Ptr → T → M C (Unit {0})
    store p x h =
        and_then (read p h) (λ _. some (tt, record h { cell = write h.cell p (slot.wrap x) }))

    -- `p := new(T)` and `*p = x`
    abbrev pub allocate : T → M C Ptr
    allocate x h =
        some (h.next, record { next = suc h.next; cell = write h.cell h.next (slot.wrap x) })
