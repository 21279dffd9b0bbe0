-- ===== src/Memory/Structs.antt =====
-- A struct whose parts are copied one after the other, the items of a list, and DeepCopy.
use mathlib.Core.Path.{fun_ext}
use capi_wx_one.Base.{ℕ, Option, none, some, List, [], ◌∷◌, ◌≡◌, refl, sym, ap, ◌∙◌, subst}
use capi_wx_one.Memory.Heap.{Heap, Slot, M, pure, ◌>>=◌, and_then, read}
use capi_wx_one.Memory.Separation.{
  Reads, Returns, Returns-bind, Reads-after, Fresh, Fresh-both, Fresh-through, CopiesAt, Copies,
}
use capi_wx_one.Memory.Cells.{and_then-eq-some, Reads-pointer}
use capi_wx_one.Memory.Copying.{copy_all, copy_items, read_all, read_items}
use capi_wx_one.Memory.Shapes.{Fresh-value, Returns-load, allocated, allocated-Fresh, Copies-value}

module _ {C U V W : Type 0} (f : U → V → W)
    (inj : (a a' : U) (b b' : V) → f a b ≡ f a' b' → (a ≡ a') × (b ≡ b')) where
  abbrev both : (Heap C → Option U) → (Heap C → Option V) → Heap C → Option W
  both r s k = and_then (r k) (λ a. and_then (s k) (λ b. some (f a b)))

  both-eq-some :
      (r : Heap C → Option U) (s : Heap C → Option V) (k : Heap C) (w : W)
      → both r s k ≡ some w
      → (a : U) × (b : V) × (r k ≡ some a) × (s k ≡ some b) × (f a b ≡ w)
  both-eq-some r s k w h =
      let (a, first, h1) = and_then-eq-some (r k) (λ a. and_then (s k) (λ b. some (f a b))) h in
      let (b, second, h2) = and_then-eq-some (s k) (λ b. some (f a b)) h1 in
      (a, b, first, second, cc h2)

  pub Reads-both :
      (r : Heap C → Option U) (s : Heap C → Option V) (lo hi : ℕ) (h : Heap C) (w : W)
      → Reads lo hi h (both r s) w
      → (a : U) × (b : V) × Reads lo hi h r a × Reads lo hi h s b × (f a b ≡ w)
  Reads-both r s lo hi h w reads =
      let (a, b, first, second, e) = both-eq-some r s h w (reads h (λ p from to. refl)) in
      (
        a,
        b,
        λ k agree.
            let (a', b', first', second', e') = both-eq-some r s k w (reads k agree) in
            first' ∙ ap some (inj a' a b' b (e' ∙ sym e)).0,
        λ k agree.
            let (a', b', first', second', e') = both-eq-some r s k w (reads k agree) in
            second' ∙ ap some (inj a' a b' b (e' ∙ sym e)).1,
        e,
      )

module _ {C T S U V W : Type 0} (r : T → Heap C → Option U) (s : S → Heap C → Option V)
    (copy_r : T → M C T) (copy_s : S → M C S) where
  -- Two parts, copied in their order: each copy is read as its part, and nothing is shared.
  pub Returns-both :
      {X : Type 0} (f : U → V → W)
      → ((a a' : U) (b b' : V) → f a b ≡ f a' b' → (a ≡ a') × (b ≡ b'))
      → (x : T) (y : S) (w : W) (h : Heap C) (result : T → S → X) (g : X → Heap C → Option W)
      → CopiesAt r copy_r x
      → CopiesAt s copy_s y
      → Reads 0 h.next h (λ k. and_then (r x k) (λ a. and_then (s y k) (λ b. some (f a b)))) w
      → ((x' : T) (y' : S) (k : Heap C)
          → g (result x' y') k ≡ and_then (r x' k) (λ a. and_then (s y' k) (λ b. some (f a b))))
      → Returns
          (λ z k. Fresh h (g z) w k)
          ((copy_r x >>= λ x'. copy_s y >>= λ y'. pure (result x' y')) h)
  Returns-both f inj x y w h result g r_copied s_copied reads meaning =
      let (a, b, first, second, e) = Reads-both f inj (r x) (s y) 0 h.next h w reads in
      let meant : T → S → Heap C → Option W =
        λ x' y' m. and_then (r x' m) (λ a. and_then (s y' m) (λ b. some (f a b))) in
      Returns-bind {Q = λ x' k. Fresh h (r x') a k} (copy_r x) _ h (r_copied a h first) λ x' k made.
        Returns-bind {Q = λ y' l. Fresh k (s y') b l} (copy_s y) _ k
          (s_copied b k (Reads-after h k (r x') a (s y) b made second))
          λ y' l made'. record {
            holds =
                subst (λ q. Fresh h q w l) (sym (fun_ext (meaning x' y')))
                  (subst (λ w. Fresh h (meant x' y') w l) e
                    (Fresh-both h k l (r x') a (s y') b f made made'));
          }

-- A value that is passed on as an option is there.
pub Reads-some :
    {C U : Type 0} (r : Heap C → Option U) (hi : ℕ) (h : Heap C) (w : Option U)
    → Reads 0 hi h (λ k. and_then (r k) (λ a. some (some a))) w
    → (u : U) × Reads 0 hi h r u × (some u ≡ w)
Reads-some r hi h w reads =
    let (u, here, e) = and_then-eq-some (r h) (λ a. some (some a)) (reads h (λ p from to. refl)) in
    (
      u,
      λ k agree.
          let (u', there, e') = and_then-eq-some (r k) (λ a. some (some a)) (reads k agree) in
          there ∙ cc (e, e'),
      cc e,
    )

module _ {C T S R U V W Y : Type 0} (r : T → Heap C → Option U) (s : S → Heap C → Option V)
    (q : R → Heap C → Option W) (copy_r : T → M C T) (copy_s : S → M C S) (copy_q : R → M C R)
    (f : U → V → W → Y)
    (inj : (a a' : U) (b b' : V) (c c' : W)
      → f a b c ≡ f a' b' c'
      → (a ≡ a') × (b ≡ b') × (c ≡ c')) where
  abbrev pair_of : T → S → Heap C → Option (U × V)
  pair_of x y k = and_then (r x k) (λ a. and_then (s y k) (λ b. some (a, b)))

  abbrev three : T → S → R → Heap C → Option Y
  three x y z k = and_then (pair_of x y k) (λ (a, b). and_then (q z k) (λ c. some (f a b c)))

  -- Three parts.
  pub Returns-three :
      {X : Type 0} (x : T) (y : S) (z : R) (v : Y) (h : Heap C) (result : T → S → R → X)
      (g : X → Heap C → Option Y)
      → CopiesAt r copy_r x
      → CopiesAt s copy_s y
      → CopiesAt q copy_q z
      → Reads 0 h.next h (three x y z) v
      → ((x' : T) (y' : S) (z' : R) (k : Heap C) → g (result x' y' z') k ≡ three x' y' z' k)
      → Returns
          (λ o k. Fresh h (g o) v k)
          ((copy_r x >>= λ x'. copy_s y >>= λ y'. copy_q z >>= λ z'. pure (result x' y' z')) h)
  Returns-three x y z v h result g r_copied s_copied q_copied reads meaning =
      let (ab, c, pair, third, e) =
        Reads-both (λ (ab : U × V) c. f ab.0 ab.1 c)
          (λ p p' c c' e. let (e1, e2, e3) = inj p.0 p'.0 p.1 p'.1 c c' e in (cc (e1, e2), e3))
          (pair_of x y) (q z) 0 h.next h v reads in
      let (a, b, first, second, e') =
        Reads-both (λ a b. (a, b)) (λ a a' b b' e. (ap (λ p. p.0) e, ap (λ p. p.1) e)) (r x) (s y) 0
          h.next h ab pair in
      Returns-bind {Q = λ x' k. Fresh h (r x') a k} (copy_r x) _ h (r_copied a h first) λ x' k made.
        let second' = Reads-after h k (r x') a (s y) b made second in
        Returns-bind {Q = λ y' l. Fresh k (s y') b l} (copy_s y) _ k (s_copied b k second')
          λ y' l made'.
            let made'' = Fresh-both h k l (r x') a (s y') b (λ a b. (a, b)) made made' in
            Returns-bind {Q = λ z' n. Fresh l (q z') c n} (copy_q z) _ l
              (q_copied c l (Reads-after h l (pair_of x' y') (a, b) (q z) c made'' third))
              λ z' n made3. record {
                holds =
                    subst (λ o. Fresh h o v n) (sym (fun_ext (meaning x' y' z')))
                      (subst (λ v. Fresh h (three x' y' z') v n) (ap (λ p. f p.0 p.1 c) e' ∙ e)
                        (Fresh-both h l n (pair_of x' y') (a, b) (q z') c
                          (λ (p : U × V) c. f p.0 p.1 c) made'' made3));
              }

module _ {C T U : Type 0} (r : T → Heap C → Option U) (copy : T → M C T)
    (copied : Copies r copy) where
  -- A struct with one part that needs a copy.
  pub Returns-one :
      {W X : Type 0} (f : U → W)
      → ((a a' : U) → f a ≡ f a' → a ≡ a')
      → (x : T) (w : W) (h : Heap C) (result : T → X) (g : X → Heap C → Option W)
      → Reads 0 h.next h (λ k. and_then (r x k) (λ a. some (f a))) w
      → ((x' : T) (k : Heap C) → g (result x') k ≡ and_then (r x' k) (λ a. some (f a)))
      → Returns (λ z k. Fresh h (g z) w k) ((copy x >>= λ x'. pure (result x')) h)
  Returns-one f inj x w h result g reads meaning =
      Returns-both r (λ (y : Unit {0}) k. some y) copy pure (λ a _. f a)
        (λ a a' b b' e. (inj a a' e, refl)) x tt w h (λ x' _. result x') g (copied x)
        (Copies-value tt) reads (λ x' y' k. meaning x' k)

  pub Copies-all : Copies (read_all r) (copy_all copy)
  unfolding copy_all
  Copies-all [] v h reads = record { holds = Fresh-value h _ v (λ k. reads h (λ p from to. refl)) }
  Copies-all (x ∷ xs) v h reads =
      Returns-both r (read_all r) copy (copy_all copy) (λ a b. a ∷ b) (λ a a' b b' e. (cc e, cc e))
        x xs v h (λ y ys. y ∷ ys) (read_all r) (copied x) (Copies-all xs) reads (λ y ys k. refl)

  module _ (slot : Slot C (List T)) where
    pub Copies-items : Copies (read_items slot r) (copy_items slot copy)
    unfolding copy_items
    Copies-items none v h reads = record {
      holds = Fresh-value h _ v (λ k. reads h (λ p from to. refl));
    }
    Copies-items (some p) v h reads =
        let (xs, here, inside) =
          Reads-pointer slot (λ xs k. and_then (read_all r xs k) (λ vs. some (some vs))) p h.next h
            v reads in
        let (vs, elements, e) = Reads-some (read_all r xs) h.next h v inside in
        Returns-load slot _ p xs h here (
          Returns-bind {Q = λ ys k. Fresh h (read_all r ys) vs k} (copy_all copy xs) _ h
            (Copies-all xs vs h elements)
            λ ys k made. record {
              holds =
                  subst (λ v. Fresh h (read_items slot r (some k.next)) v (allocated slot ys k)) e
                    (Fresh-through h k (allocated slot ys k) ys (read_all r) vs (read slot k.next)
                      some made (allocated-Fresh slot ys k));
            })
