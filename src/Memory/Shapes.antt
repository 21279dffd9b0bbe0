-- ===== src/Memory/Shapes.antt =====
-- Each shape of the generated code copies what its parts copy.
use capi_wx_one.Base.{suc, Option, none, some, List, ◌≡◌, refl, sym, ap, ◌∙◌, subst, arith}
use capi_wx_one.Memory.Heap.{Ptr, Heap, Slot, M, pure, continue, ◌>>=◌, and_then, read, load, write}
use capi_wx_one.Memory.Separation.{Returns, Fresh, Copies}
use capi_wx_one.Memory.Cells.{Reads-pointer}
use capi_wx_one.Memory.Copying.{copy_pointer, copy_slice, read_pointer}

module _ {C : Type 0} where
  pub Fresh-value :
      {V : Type 0} (h : Heap C) (r : Heap C → Option V) (v : V)
      → ((k : Heap C) → r k ≡ some v)
      → Fresh h r v h
  Fresh-value h r v always = record {
    grows = omega arith;
    kept = λ p from to. refl;
    fresh = λ k agree. always k;
  }

  -- A value without pointers is its own copy.
  pub Copies-value : {T : Type 0} → Copies {C = C} (λ (x : T) k. some x) pure
  Copies-value x v h reads = record { holds = Fresh-value h _ v (λ k. reads h (λ p from to. refl)) }

  pub Fresh-then :
      {U V : Type 0} (h k : Heap C) (r : Heap C → Option U) (u : U) (f : U → V)
      → Fresh h r u k
      → Fresh h (λ m. and_then (r m) (λ a. some (f a))) (f u) k
  Fresh-then h k r u f made = record {
    grows = made.grows;
    kept = made.kept;
    fresh = λ m agree. rw (made.fresh m agree);
  }

  module _ {T : Type 0} (slot : Slot C T) where
    pub Returns-load :
        {B : Type 0} {R : B → Heap C → Type 0} (f : T → M C B) (p : Ptr) (x : T) (h : Heap C)
        → read slot p h ≡ some x
        → Returns R (f x h)
        → Returns R ((load slot p >>= f) h)
    Returns-load {R} f p x h here next =
        subst (λ o. Returns R (continue (and_then o (λ y. some (y, h))) f)) (sym here) next

    abbrev pub allocated : T → Heap C → Heap C
    allocated x h = record { next = suc h.next; cell = write h.cell h.next (slot.wrap x) }

    pub allocated-Fresh : (x : T) (h : Heap C) → Fresh h (read slot h.next) x (allocated x h)
    allocated-Fresh x h = record {
      grows = omega arith;
      kept = λ p from to. ground arith;
      fresh = λ k agree.
          let there : k.cell h.next ≡ some (slot.wrap x) =
            agree h.next (omega arith) (omega arith) ∙ ground arith in
          ap (λ c. and_then c slot.unwrap) there ∙ slot.unwrap-wrap x;
    }

    pub Copies-pointer : Copies (read_pointer slot) (copy_pointer slot)
    unfolding copy_pointer
    Copies-pointer none v h reads = record {
      holds = Fresh-value h _ v (λ k. reads h (λ p from to. refl));
    }
    Copies-pointer (some p) v h reads =
        let (x, here, inside) = Reads-pointer slot (λ x k. some (some x)) p h.next h v reads in
        let e : some x ≡ v = cc (inside h (λ q from to. refl)) in
        Returns-load _ p x h here (record {
          holds =
              subst (λ v. Fresh h (read_pointer slot (some h.next)) v (allocated x h)) e
                (Fresh-then h (allocated x h) (read slot h.next) x some (allocated-Fresh x h));
        })

module _ {C T : Type 0} (slot : Slot C (List T)) where
  pub Copies-slice : Copies (read_pointer slot) (copy_slice slot)
  unfolding copy_slice copy_pointer
  Copies-slice none v h reads = Copies-pointer slot none v h reads
  Copies-slice (some p) v h reads = Copies-pointer slot (some p) v h reads
