-- ===== src/Memory/Separation.antt =====
-- Values that are read through a part of the memory only, and code that copies into a fresh part.
use capi_wx_one.Base.{ℕ, ◌≤◌, ◌<◌, Option, none, some, ◌≡◌, refl, ◌∙◌, arith}
use capi_wx_one.Memory.Heap.{Ptr, Heap, M, continue, ◌>>=◌, and_then}

module _ {C : Type 0} where
  -- The cells from `lo` below `hi` hold in `k` what they hold in `h`.
  abbrev pub Agree : ℕ → ℕ → Heap C → Heap C → Type 0
  Agree lo hi h k = (p : Ptr) → lo ≤ p → p < hi → k.cell p ≡ h.cell p

  -- The value is read in every memory that has these cells: no other cell matters.
  abbrev pub Reads : {V : Type 0} → ℕ → ℕ → Heap C → (Heap C → Option V) → V → Type 0
  Reads lo hi h r v = (k : Heap C) → Agree lo hi h k → r k ≡ some v

  abbrev pub Post : {A : Type 0} → (A → Heap C → Type 0) → Option (A × Heap C) → Type 0
  Post Q none = ⊥
  Post Q (some (a, h)) = Q a h

  -- The code returns, with this postcondition: a fault meets none.
  pub record Returns {A : Type 0} (Q : A → Heap C → Type 0) (r : Option (A × Heap C)) : Type 0 where
    pub holds : Post Q r

  continue_lem :
      {A B : Type 0} {Q : A → Heap C → Type 0} {R : B → Heap C → Type 0} (r : Option (A × Heap C))
      (f : A → M C B)
      → Returns Q r
      → ((a : A) (k : Heap C) → Q a k → Returns R (f a k))
      → Returns R (continue r f)
  continue_lem none f bad next = absurd bad.holds
  continue_lem (some (a, k)) f post next = next a k post.holds

  pub Returns-bind :
      {A B : Type 0} {Q : A → Heap C → Type 0} {R : B → Heap C → Type 0} (m : M C A) (f : A → M C B)
      (h : Heap C)
      → Returns Q (m h)
      → ((a : A) (k : Heap C) → Q a k → Returns R (f a k))
      → Returns R ((m >>= f) h)
  Returns-bind m f h = continue_lem (m h) f

  pub Returns-weaken :
      {A : Type 0} {Q R : A → Heap C → Type 0} (r : Option (A × Heap C))
      → Returns Q r
      → ((a : A) (k : Heap C) → Q a k → R a k)
      → Returns R r
  Returns-weaken none bad keep = absurd bad.holds
  Returns-weaken (some (a, k)) post keep = record { holds = keep a k post.holds }

  pub Reads-wider :
      {V : Type 0} (lo hi lo' hi' : ℕ) (h k : Heap C) (r : Heap C → Option V) (v : V)
      → lo' ≤ lo
      → hi ≤ hi'
      → Agree lo hi h k
      → Reads lo hi h r v
      → Reads lo' hi' k r v
  Reads-wider lo hi lo' hi' h k r v below above same reads other agree =
      reads other λ p from to. agree p (omega arith) (omega arith) ∙ same p from to

  -- From `h`, the code made `y` in cells that were free, and left the cells in use alone.
  pub record Fresh {V : Type 0} (h : Heap C) (r : Heap C → Option V) (v : V) (k : Heap C)
      : Type 0 where
    pub grows : h.next ≤ k.next
    pub kept : Agree 0 h.next h k
    pub fresh : Reads h.next k.next k r v

  -- A copy of `x` is read as `x` is, in cells of its own.
  abbrev pub CopiesAt : {T V : Type 0} → (T → Heap C → Option V) → (T → M C T) → T → Type 0
  CopiesAt {T} {V} r copy x =
      (v : V) (h : Heap C)
      → Reads 0 h.next h (r x) v
      → Returns (λ y k. Fresh h (r y) v k) (copy x h)

  abbrev pub Copies : {T V : Type 0} → (T → Heap C → Option V) → (T → M C T) → Type 0
  Copies {T} r copy = (x : T) → CopiesAt r copy x

  Fresh-later :
      {V W : Type 0} (h k l : Heap C) (r : Heap C → Option V) (v : V) (s : Heap C → Option W)
      (w : W)
      → Fresh h r v k
      → Fresh k s w l
      → Fresh h r v l
  Fresh-later h k l r v s w one two = record {
    grows = omega (arith, one.grows, two.grows);
    kept = λ p from to. two.kept p from (omega (arith, one.grows)) ∙ one.kept p from to;
    fresh =
        Reads-wider h.next k.next h.next l.next k l r v (omega arith) two.grows
          (λ p from to. two.kept p (omega arith) to) one.fresh;
  }

  Fresh-earlier :
      {V W : Type 0} (h k l : Heap C) (r : Heap C → Option V) (v : V) (s : Heap C → Option W)
      (w : W)
      → Fresh h r v k
      → Fresh k s w l
      → Fresh h s w l
  Fresh-earlier h k l r v s w one two = record {
    grows = omega (arith, one.grows, two.grows);
    kept = λ p from to. two.kept p from (omega (arith, one.grows)) ∙ one.kept p from to;
    fresh =
        Reads-wider k.next l.next h.next l.next l l s w one.grows (omega arith) (λ p from to. refl)
          two.fresh;
  }

  -- Two values that were made one after the other, and a third that is read from both.
  pub Fresh-both :
      {U V W : Type 0} (h k l : Heap C) (r : Heap C → Option U) (u : U) (s : Heap C → Option V)
      (v : V) (f : U → V → W)
      → Fresh h r u k
      → Fresh k s v l
      → Fresh h (λ m. and_then (r m) (λ a. and_then (s m) (λ b. some (f a b)))) (f u v) l
  Fresh-both h k l r u s v f one two =
      let first = Fresh-later h k l r u s v one two in
      let second = Fresh-earlier h k l r u s v one two in
      record {
        grows = first.grows;
        kept = first.kept;
        fresh = λ m agree. rw (first.fresh m agree, second.fresh m agree);
      }

  -- What is in use in `h` is in use after the code ran, too.
  pub Reads-after :
      {U V : Type 0} (h k : Heap C) (r : Heap C → Option U) (u : U) (s : Heap C → Option V) (v : V)
      → Fresh h r u k
      → Reads 0 h.next h s v
      → Reads 0 k.next k s v
  Reads-after h k r u s v made reads =
      Reads-wider 0 h.next 0 k.next h k s v (omega arith) made.grows made.kept reads

  -- A pointer that was made after the value that it leads to.
  pub Fresh-through :
      {T U V : Type 0} (h k l : Heap C) (x : T) (r : T → Heap C → Option U) (u : U)
      (s : Heap C → Option T) (f : U → V)
      → Fresh h (r x) u k
      → Fresh k s x l
      → Fresh h (λ m. and_then (s m) (λ y. and_then (r y m) (λ a. some (f a)))) (f u) l
  Fresh-through h k l x r u s f one two =
      let first = Fresh-later h k l (r x) u s x one two in
      let second = Fresh-earlier h k l (r x) u s x one two in
      record {
        grows = first.grows;
        kept = first.kept;
        fresh = λ m agree. rw (second.fresh m agree, first.fresh m agree);
      }
