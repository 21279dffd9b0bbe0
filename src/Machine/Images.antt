-- ===== src/Machine/Images.antt =====
-- Which image the controller takes from the list.
use capi_wx_one.Base.{
  String, Bool, true, false, Option, none, some, List, [], ◌∷◌, ◌≡◌, refl, sym, ap, ◌==◌,
  if◌then◌else◌,
}
use capi_wx_one.Api.{WxOneCluster, WxOneMachine}
use capi_wx_one.Clients.{WxOneClients}
use capi_wx_one.Graphql.Responses.{ListedImage}
use capi_wx_one.Effects.{Env, Trace, pure, ◌>>=◌}
use capi_wx_one.Effects.Ends.{
  Ends, Ends-bind, Ends-pure, Ends-throw, Ends-call_bind, Ends-some_bind, Ends-deref_bind,
}
use capi_wx_one.Machine.Stages.{PatchHelper, image_id, scan_images, take_image, image_or_error}

abbrev pub image_name : Option ListedImage → Option String
image_name none = none
image_name (some i) = i.name

abbrev pub is_named : String → Option ListedImage → Bool
is_named wanted none = false
is_named wanted (some i) = elim i.name [ none ↦ false | some n ↦ n == wanted ]

abbrev pub id_of : Option ListedImage → String
id_of none = ""
id_of (some i) = i.id

-- The id of the last image of the name, and `old` where there is none.
abbrev pub last_named : String → List (Option ListedImage) → Option String → Option String
last_named wanted [] old = old
last_named wanted (i ∷ r) old =
    last_named wanted r (if is_named wanted i then some (id_of i) else old)

-- What is recorded so far.
abbrev pub Took : Option String → Bool × WxOneMachine → Type 0
Took none s = s.0 ≡ false
Took (some id) s = (s.0 ≡ true) × (image_id s.1 ≡ id)

no_flag : false ≡ true → ⊥
no_flag h = cc

module _ (env : Env) (clients : WxOneClients) (helper : PatchHelper) (wx : WxOneCluster) where
  record Scanned (wanted : String) (old : Option String) (s : Bool × WxOneMachine) : Type 0 where
    same_name : s.1.spec.image.name ≡ wanted
    took : Took old s

  take_image-Scanned :
      (wanted id : String) (m : WxOneMachine) (t : Trace)
      → m.spec.image.name ≡ wanted
      → Ends
          (λ s _. Scanned wanted (some id) s)
          (λ _. Unit {0})
          (take_image env clients helper wx id m)
          t
  unfolding take_image
  take_image-Scanned wanted id m t same =
      Ends-call_bind _ _ (λ _ _. Ends-pure _ (record { same_name = same; took = (refl, refl) }))
        (λ _ _. tt)

  step-Scanned :
      (b c : Bool) (wanted id : String) (old : Option String) (s : Bool × WxOneMachine) (t : Trace)
      → b ≡ c
      → Scanned wanted old s
      → Ends
          (λ s' _. Scanned wanted (if b then some id else old) s')
          (λ _. Unit {0})
          (if c then take_image env clients helper wx id s.1 else pure s)
          t
  step-Scanned true true wanted id old s t e h = take_image-Scanned wanted id s.1 t h.same_name
  step-Scanned true false wanted id old s t e h = absurd cc
  step-Scanned false true wanted id old s t e h = absurd cc
  step-Scanned false false wanted id old s t e h = Ends-pure s h

  scan_images-Scanned :
      (wanted : String) (l : List (Option ListedImage)) (old : Option String)
      (s : Bool × WxOneMachine) (t : Trace)
      → Scanned wanted old s
      → Ends
          (λ s' _. Scanned wanted (last_named wanted l old) s')
          (λ _. Unit {0})
          (scan_images env clients helper wx l s)
          t
  unfolding scan_images
  scan_images-Scanned wanted [] old s t h = Ends-pure s h
  scan_images-Scanned wanted (none ∷ r) old s t h = Ends-deref_bind (λ _. tt) λ i e. absurd cc
  scan_images-Scanned wanted (some i ∷ r) old s t h = Ends-some_bind i _ (
      Ends-deref_bind (λ _. tt)
        λ name named.
          let same : is_named wanted (some i) ≡ (name == s.1.spec.image.name) =
            rw (named, h.same_name) refl in
          Ends-bind
            (step-Scanned (is_named wanted (some i)) (name == s.1.spec.image.name) wanted i.id old s
              t same h)
            λ s' t1 h1. scan_images-Scanned wanted r _ s' t1 h1)

  -- If the search through the listed images returns, the image that it recorded is the last of the
  -- list that has the wanted name, and there is one.
  pub scan_images-last_named :
      (l : List (Option ListedImage)) (m : WxOneMachine) (t : Trace)
      → Ends
          (λ m' _. last_named m.spec.image.name l none ≡ some (image_id m'))
          (λ _. Unit {0})
          (scan_images env clients helper wx l (false, m) >>= image_or_error env clients helper wx)
          t
  unfolding image_or_error
  scan_images-last_named l m t =
      Ends-bind
        (scan_images-Scanned m.spec.image.name l none (false, m) t
          (record { same_name = refl; took = refl }))
        λ s t1 h1. by_flag (last_named m.spec.image.name l none) s t1 h1.took
    where
      by_flag :
          (o : Option String) (s : Bool × WxOneMachine) (u : Trace)
          → Took o s
          → Ends
              (λ m' _. o ≡ some (image_id m'))
              (λ _. Unit {0})
              (image_or_error env clients helper wx s)
              u
      by_flag none (true, m') u h = absurd cc
      by_flag none (false, m') u h = Ends-throw _ tt
      by_flag (some id) (true, m') u h = Ends-pure m' (ap some (sym h.1))
      by_flag (some id) (false, m') u h = absurd (no_flag h.0)
