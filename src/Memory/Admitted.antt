-- ===== src/Memory/Admitted.antt =====
-- The validators in memory and the ones on values.
use capi_wx_one.Base.{◌≤◌, ◌<◌, Option, some, false, ◌≡◌, refl, sym, ap, ◌∙◌, subst, arith}
use capi_wx_one.Api.Equality.{deep_equal}
use capi_wx_one.Memory.Heap.{
  Ptr, Heap, M, Slot, pure, continue, ◌>>=◌, and_then, read, load, store, same_ptr,
}
use capi_wx_one.Memory.Separation.{Agree, Reads, Returns, Returns-bind, Reads-after, Copies}
use capi_wx_one.Memory.Contents.{Cell}
use capi_wx_one.Memory.Copying.{deep_copy, read_object}
use capi_wx_one.Memory.Shapes.{Returns-load}
use capi_wx_one.Memory.Objects.{Placed, Placed-Fresh, deep_copy-Placed, stored, Returns-store}
use capi_wx_one.Memory.Admission.{admit_update, non_nil, examine}
use capi_wx_one.Webhook.Validators.{Admission, unchanged}

module _ {T U W : Type 0} (slot : Slot Cell T) (r : T → Heap Cell → Option U) (copy : T → M Cell T)
    (amend : T → T → T) (spec_of : T → Heap Cell → Option W) (dec : Discrete W)
    (copied : Copies r copy) (amended unamended : U → U → W)
    (new_spec : (x y : T) (k : Heap Cell) (n o : U)
      → r x k ≡ some n
      → r y k ≡ some o
      → spec_of (amend x y) k ≡ some (amended n o))
    (old_spec : (y : T) (k : Heap Cell) (n o : U)
      → r y k ≡ some o
      → spec_of y k ≡ some (unamended n o)) where
  -- The two copies, and no cell in use changed since.
  record Copied (n o : U) (h : Heap Cell) (p q : Ptr) (x y : T) (k : Heap Cell) : Type 0 where
    apart : same_ptr p q ≡ false
    kept : Agree 0 h.next h k
    free : h.next ≤ p
    x_there : read slot p k ≡ some x
    y_there : read slot q k ≡ some y
    n_there : r x (stored slot p (amend x y) k) ≡ some n
    o_there : r y (stored slot p (amend x y) k) ≡ some o

  Returns-examine :
      {A B : Type 0} {R : B → Heap Cell → Type 0} (s : Heap Cell → Option A) (f : A → M Cell B)
      (a : A) (h : Heap Cell)
      → s h ≡ some a
      → Returns R (f a h)
      → Returns R ((examine s >>= f) h)
  Returns-examine {R} s f a h here next =
      subst (λ o. Returns R (continue (and_then o (λ b. some (b, h))) f)) (sym here) next

  Returns-non_nil :
      {B : Type 0} {R : B → Heap Cell → Type 0} (o : Option Ptr) (f : Ptr → M Cell B) (p : Ptr)
      (h : Heap Cell)
      → o ≡ some p
      → Returns R (f p h)
      → Returns R ((non_nil o >>= f) h)
  Returns-non_nil {R} o f p h here next =
      subst (λ o. Returns R ((non_nil o >>= f) h)) (sym here) next

  Copied-two :
      (n o : U) (h k l : Heap Cell) (x y : T)
      → Placed slot r n h x k
      → Placed slot r o k y l
      → Copied n o h h.next k.next x y l
  Copied-two n o h k l x y one two = record {
    apart = ground (arith, one.grows);
    kept = λ p from to. two.kept p from (omega (arith, one.grows)) ∙ one.kept p from to;
    free = omega arith;
    x_there =
        ap (λ c. and_then c slot.unwrap) (two.kept h.next (omega arith) one.grows ∙ one.top)
        ∙ slot.unwrap-wrap x;
    y_there = ap (λ c. and_then c slot.unwrap) two.top ∙ slot.unwrap-wrap y;
    n_there = one.inside _ λ p from to.
        let same : (stored slot h.next (amend x y) l).cell p ≡ l.cell p = ground arith in
        same ∙ two.kept p (omega arith) to;
    o_there =
        two.inside _ λ p from to. let low : h.next < p = omega (arith, one.grows) in ground arith;
  }

  -- After the write, the new copy is the amended value and the old copy is what it was.
  amended-there :
      (n o : U) (h k : Heap Cell) (p q : Ptr) (x y : T)
      → Copied n o h p q x y k
      → (read slot p (stored slot p (amend x y) k) ≡ some (amend x y))
        × (read slot q (stored slot p (amend x y) k) ≡ some y)
  amended-there n o h k p q x y c =
      let here : (stored slot p (amend x y) k).cell p ≡ some (slot.wrap (amend x y)) =
        ground arith in
      let other : (stored slot p (amend x y) k).cell q ≡ k.cell q = ground (arith, c.apart) in
      (
        ap (λ c. and_then c slot.unwrap) here ∙ slot.unwrap-wrap (amend x y),
        ap (λ c. and_then c slot.unwrap) other ∙ c.y_there,
      )

  stored-Agree :
      (h k : Heap Cell) (p : Ptr) (x : T)
      → Agree 0 h.next h k
      → h.next ≤ p
      → Agree 0 h.next h (stored slot p x k)
  stored-Agree h k p x kept free q from to =
      let same : (stored slot p x k).cell q ≡ k.cell q = ground arith in same ∙ kept q from to

  abbrev Agreed : U → U → Heap Cell → Admission → Heap Cell → Type 0
  Agreed n o h a k =
      (a ≡ unchanged (deep_equal dec (amended n o) (unamended n o))) × Agree 0 h.next h k

  compare-Agreed :
      (n o : U) (h k : Heap Cell) (p q : Ptr) (x y : T)
      → Copied n o h p q x y k
      → Returns (Agreed n o h) (
          (load slot p >>= λ x. load slot q >>= λ y. store slot p (amend x y) >>= λ _.
          load slot p >>= λ x'. load slot q >>= λ y'. examine (spec_of x') >>= λ a.
          examine (spec_of y') >>= λ b. pure (unchanged (deep_equal dec a b)))
            k)
  compare-Agreed n o h k p q x y c =
      let (new_here, old_here) = amended-there n o h k p q x y c in
      let l = stored slot p (amend x y) k in
      Returns-load slot _ p x k c.x_there (
        Returns-load slot _ q y k c.y_there (
          Returns-store slot _ p x (amend x y) k c.x_there (
            Returns-load slot _ p (amend x y) l new_here (
              Returns-load slot _ q y l old_here (
                Returns-examine (spec_of (amend x y)) _ (amended n o) l
                  (new_spec x y l n o c.n_there c.o_there)
                  (Returns-examine (spec_of y) _ (unamended n o) l (old_spec y l n o c.o_there)
                    (record { holds = (refl, stored-Agree h k p (amend x y) c.kept c.free) })))))))

  pub admit_update-Agreed :
      (new old : Ptr) (n o : U) (h : Heap Cell)
      → Reads 0 h.next h (read_object slot r (some new)) (some n)
      → Reads 0 h.next h (read_object slot r (some old)) (some o)
      → Returns (Agreed n o h) (admit_update slot copy amend spec_of dec new old h)
  unfolding admit_update
  admit_update-Agreed new old n o h new_reads old_reads =
      Returns-bind (deep_copy slot copy (some new)) _ h
        (deep_copy-Placed slot r copy copied new n h new_reads)
        λ p k (p_here, (x, one)).
          Returns-bind (deep_copy slot copy (some old)) _ k
            (deep_copy-Placed slot r copy copied old o k (
              Reads-after h k (read_object slot r (some h.next)) (some n)
                (read_object slot r (some old)) (some o) (Placed-Fresh slot r n h x k one)
                old_reads))
            λ q l (q_here, (y, two)). Returns-non_nil p _ h.next l p_here (
              Returns-non_nil q _ k.next l q_here
                (compare-Agreed n o h l h.next k.next x y (Copied-two n o h k l x y one two)))
