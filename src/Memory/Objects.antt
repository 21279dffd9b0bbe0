-- ===== src/Memory/Objects.antt =====
-- DeepCopy of an object that a pointer leads to, whatever its type.
use capi_wx_one.Base.{suc, ◌≤◌, Option, none, some, ◌≡◌, refl, sym, ap, ◌∙◌, subst, arith}
use capi_wx_one.Memory.Heap.{Ptr, Heap, Slot, M, continue, ◌>>=◌, and_then, read, store, write}
use capi_wx_one.Memory.Separation.{
  Agree, Reads, Returns, Returns-bind, Returns-weaken, Reads-after, Fresh, CopiesAt, Copies,
}
use capi_wx_one.Memory.Cells.{Reads-pointer}
use capi_wx_one.Memory.Copying.{deep_copy, read_object}
use capi_wx_one.Memory.Shapes.{Fresh-value, Returns-load, allocated, allocated-Fresh}
use capi_wx_one.Memory.Structs.{Reads-some}

module _ {C T : Type 0} (slot : Slot C T) where
  abbrev pub stored : Ptr → T → Heap C → Heap C
  stored p x h = record h { cell = write h.cell p (slot.wrap x) }

  pub Returns-store :
      {B : Type 0} {R : B → Heap C → Type 0} (f : Unit {0} → M C B) (p : Ptr) (x y : T) (h : Heap C)
      → read slot p h ≡ some x
      → Returns R (f tt (stored p y h))
      → Returns R ((store slot p y >>= f) h)
  Returns-store {R} f p x y h here next =
      subst (λ o. Returns R (continue (and_then o (λ _. some (tt, stored p y h))) f)) (sym here)
        next

  stored-at : (p : Ptr) (x : T) (h : Heap C) → (stored p x h).cell p ≡ some (slot.wrap x)
  stored-at p x h = ground arith

  -- The object lies at the first address that was free, and what it leads to lies behind it.
  pub record Placed {U : Type 0} (r : T → Heap C → Option U) (u : U) (h : Heap C) (y : T)
      (k : Heap C) : Type 0 where
    pub grows : suc h.next ≤ k.next
    pub kept : Agree 0 h.next h k
    pub top : k.cell h.next ≡ some (slot.wrap y)
    pub inside : Reads (suc h.next) k.next k (r y) u

  -- The value at a fresh address is replaced by one that was made since.
  stored-Placed :
      {U : Type 0} (r : T → Heap C → Option U) (h k : Heap C) (x y : T) (u : U)
      → Fresh (allocated slot x h) (r y) u k
      → Placed r u h y (stored h.next y k)
  stored-Placed r h k x y u made = record {
    grows = made.grows;
    kept = λ p from to.
        let same : k.cell p ≡ (allocated slot x h).cell p = made.kept p from (omega arith) in
        let old : (allocated slot x h).cell p ≡ h.cell p = ground arith in
        let apart : (stored h.next y k).cell p ≡ k.cell p = ground arith in apart ∙ same ∙ old;
    top = stored-at h.next y k;
    inside = λ m agree. made.fresh m λ p from to.
        let apart : (stored h.next y k).cell p ≡ k.cell p = ground arith in agree p from to ∙ apart;
  }

  pub Placed-Fresh :
      {U : Type 0} (r : T → Heap C → Option U) (u : U) (h : Heap C) (y : T) (k : Heap C)
      → Placed r u h y k
      → Fresh h (read_object slot r (some h.next)) (some u) k
  Placed-Fresh r u h y k placed = record {
    grows = omega (arith, placed.grows);
    kept = placed.kept;
    fresh = λ m agree.
        let there : m.cell h.next ≡ some (slot.wrap y) =
          agree h.next (omega arith) placed.grows ∙ placed.top in
        let top : read slot h.next m ≡ some y =
          ap (λ c. and_then c slot.unwrap) there ∙ slot.unwrap-wrap y in
        let inside : r y m ≡ some u = placed.inside m (λ p from to. agree p (omega arith) to) in
        rw (top, inside);
  }

  pub deep_copy-Placed :
      {U : Type 0} (r : T → Heap C → Option U) (copy : T → M C T)
      → Copies r copy
      → (p : Ptr) (u : U) (h : Heap C) → Reads 0 h.next h (read_object slot r (some p)) (some u)
      → Returns
          (λ q k. (q ≡ some h.next) × ((y : T) × Placed r u h y k))
          (deep_copy slot copy (some p) h)
  unfolding deep_copy
  deep_copy-Placed r copy copied p u' h reads =
      let (x, here, inside) =
        Reads-pointer slot (λ x k. and_then (r x k) (λ u. some (some u))) p h.next h (some u')
          reads in
      let (u, value, e) = Reads-some (r x) h.next h (some u') inside in
      let same : u ≡ u' = cc e in
      let shallow = allocated-Fresh slot x h in
      Returns-load slot _ p x h here (
        Returns-bind {Q = λ y k. Fresh (allocated slot x h) (r y) u k} (copy x) _
          (allocated slot x h)
          (copied x u (allocated slot x h)
            (Reads-after h (allocated slot x h) (read slot h.next) x (r x) u shallow value))
          λ y k made.
            Returns-store _ h.next x y k
              (ap (λ c. and_then c slot.unwrap) (made.kept h.next (omega arith) (omega arith))
                ∙ shallow.fresh (allocated slot x h) (λ q from to. refl))
              (record {
                holds = (
                  refl,
                  (
                    y,
                    subst (λ u. Placed r u h y (stored h.next y k)) same
                        (stored-Placed r h k x y u made),
                  ),
                );
              }))

  deep_copy-none :
      {U : Type 0} (r : T → Heap C → Option U) (copy : T → M C T)
      → CopiesAt (read_object slot r) (deep_copy slot copy) none
  unfolding deep_copy
  deep_copy-none r copy v h reads = record {
    holds = Fresh-value h _ v (λ k. reads h (λ p from to. refl));
  }

  pub Copies-object :
      {U : Type 0} (r : T → Heap C → Option U) (copy : T → M C T)
      → Copies r copy
      → Copies (read_object slot r) (deep_copy slot copy)
  Copies-object {U} r copy copied none v h reads = deep_copy-none r copy v h reads
  Copies-object {U} r copy copied (some p) v h reads =
      let (x, here, inside) =
        Reads-pointer slot (λ x k. and_then (r x k) (λ u. some (some u))) p h.next h v reads in
      let (u, value, e) = Reads-some (r x) h.next h v inside in
      Returns-weaken (deep_copy slot copy (some p) h)
        (deep_copy-Placed r copy copied p u h
          (subst (λ v. Reads 0 h.next h (read_object slot r (some p)) v) (sym e) reads))
        λ q k (at, (y, placed)).
          subst (λ q. Fresh h (read_object slot r q) v k) (sym at)
            (subst (λ v. Fresh h (read_object slot r (some h.next)) v k) e
              (Placed-Fresh r u h y k placed))
