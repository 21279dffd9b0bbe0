-- ===== src/Memory/Cells.antt =====
-- What one step of a copy does: read a cell, allocate one, write to one.
use native.Mathlib.Decide.{dec_lt}
use capi_wx_one.Base.{
  ℕ, ◌≤◌, ◌<◌, Option, none, some, ◌≡◌, refl, sym, ap, ◌∙◌, arith, if◌then◌else◌,
}
use capi_wx_one.Memory.Heap.{Ptr, Heap, Slot, and_then, read, same_ptr}
use capi_wx_one.Memory.Separation.{Agree, Reads}

pub and_then-eq-some {ℓ κ} :
    {A : Type ℓ} {B : Type κ} (o : Option A) (f : A → Option B) {b : B}
    → and_then o f ≡ some b
    → (a : A) × (o ≡ some a) × (f a ≡ some b)
and_then-eq-some none f h = cc
and_then-eq-some (some a) f h = (a, refl, h)

module _ {C : Type 0} where
  erase : Heap C → Ptr → Heap C
  erase h p = record h { cell = λ q. if same_ptr p q then none else h.cell q }

  erase-Agree : (h : Heap C) (p : Ptr) (hi : ℕ) → hi ≤ p → Agree 0 hi h (erase h p)
  unfolding erase
  erase-Agree h p hi above q from to = ground arith

  erase-cell : (h : Heap C) (p : Ptr) → (erase h p).cell p ≡ none
  unfolding erase
  erase-cell h p = ground arith

  module _ {T V : Type 0} (slot : Slot C T) where
    -- A value that is read through a pointer is read through a cell of the part.
    Reads-below :
        (g : T → Heap C → Option V) (p : Ptr) (hi : ℕ) (h : Heap C) (v : V)
        → Reads 0 hi h (λ k. and_then (read slot p k) (λ x. g x k)) v
        → p < hi
    Reads-below g p hi h v reads = elim (dec_lt p hi) [
      | yes below ↦ below
      | no above ↦
          let gone = reads (erase h p) (erase-Agree h p hi (omega arith)) in
          absurd (cc (gone, erase-cell h p))
    ]

    pub Reads-pointer :
        (g : T → Heap C → Option V) (p : Ptr) (hi : ℕ) (h : Heap C) (v : V)
        → Reads 0 hi h (λ k. and_then (read slot p k) (λ x. g x k)) v
        → (x : T) × (read slot p h ≡ some x) × Reads 0 hi h (g x) v
    Reads-pointer g p hi h v reads =
        let below = Reads-below g p hi h v reads in
        let (x, here, same) =
          and_then-eq-some (read slot p h) (λ x. g x h) (reads h (λ q from to. refl)) in
        (
          x,
          here,
          λ k agree.
              let there : read slot p k ≡ some x =
                ap (λ c. and_then c slot.unwrap) (agree p (omega arith) below) ∙ here in
              sym (ap (λ o. and_then o (λ x. g x k)) there) ∙ reads k agree,
        )
