-- ===== src/Machine/Progress/Image.antt =====
-- The search for the image against servers that answer.
use capi_wx_one.Base.{
  String, Bool, true, false, Option, none, some, List, [], ◌∷◌, ◌≡◌, refl, ap, ◌∙◌, is_empty,
  if◌then◌else◌, ◌==◌,
}
use capi_wx_one.Api.{WxOneCluster, WxOneMachine}
use capi_wx_one.Graphql.Responses.{ListedImage}
use capi_wx_one.Graphql.Operations
use capi_wx_one.Clients.{WxOneClients}
use capi_wx_one.Effects.{Env, Trace, GraphqlClient, pure}
use capi_wx_one.Effects.Ends.{Ends, Ends-bind, Ends-pure, Ends-some_bind}
use capi_wx_one.Effects.Known.{Ends-call_done, Ends-request_done, Ends-deref_known}
use capi_wx_one.Machine.Stages
use capi_wx_one.Machine.Stages.{
  PatchHelper, Result, has_annotation, flavor_id, image_id, instance_id, attachement_id,
  is_control_plane, user_data,
}
use capi_wx_one.Machine.Images.{last_named, is_named, Took}
use capi_wx_one.Machine.Progress.{AllNamed, Provides}

no_flag : false ≡ true → ⊥
no_flag h = cc

module _ (env : Env) (wanted : String) (provides : Provides env wanted) where
  module _ (clients : WxOneClients) (g : GraphqlClient) (there : clients.graphql_client ≡ some g)
      (helper : PatchHelper) (wx : WxOneCluster) where
    -- What the scan leaves: the flavor, and the image found so far.
    record Scanning (flavor : String) (old : Option String) (s : Bool × WxOneMachine) : Type 0 where
      same_flavor : flavor_id s.1 ≡ flavor
      same_name : s.1.spec.image.name ≡ wanted
      took : Took old s

    step-Scanning :
        (b c : Bool) (flavor id : String) (old : Option String) (s : Bool × WxOneMachine)
        (t : Trace)
        → b ≡ c
        → Scanning flavor old s
        → Ends
            (λ s' _. Scanning flavor (if b then some id else old) s')
            (λ _. ⊥)
            (if c then Stages.take_image env clients helper wx id s.1 else pure s)
            t
    unfolding Stages.take_image
    step-Scanning true true flavor id old s t e h =
        Ends-call_done _ tt _ _ (provides.patches _ _ _) (
          Ends-pure _
            (record { same_flavor = h.same_flavor; same_name = h.same_name; took = (refl, refl) }))
    step-Scanning true false flavor id old s t e h = absurd cc
    step-Scanning false true flavor id old s t e h = absurd cc
    step-Scanning false false flavor id old s t e h = Ends-pure s h

    scan_images-Scanning :
        (l : List (Option ListedImage)) (flavor : String) (old : Option String)
        (s : Bool × WxOneMachine) (t : Trace)
        → AllNamed l
        → Scanning flavor old s
        → Ends
            (λ s' _. Scanning flavor (last_named wanted l old) s')
            (λ _. ⊥)
            (Stages.scan_images env clients helper wx l s)
            t
    unfolding Stages.scan_images
    scan_images-Scanning [] flavor old s t named h = Ends-pure s h
    scan_images-Scanning (none ∷ r) flavor old s t named h = absurd named
    scan_images-Scanning (some i ∷ r) flavor old s t named h =
        let (name, e) = named.0 in
        let same : is_named wanted (some i) ≡ (name == s.1.spec.image.name) =
          rw (e, h.same_name) refl in
        Ends-some_bind i _ (
          Ends-deref_known _ name e (
            Ends-bind
              (step-Scanning (is_named wanted (some i)) (name == s.1.spec.image.name) flavor i.id
                old s t same h)
              λ s' t1 h1. scan_images-Scanning r flavor _ s' t1 named.1 h1))

    image_or_error-returns :
        (id : String) (flavor : String) (o : Option String) (s : Bool × WxOneMachine) (t : Trace)
        → o ≡ some id
        → is_empty id ≡ false
        → is_empty flavor ≡ false
        → Scanning flavor o s
        → Ends
            (λ m' _. (is_empty (flavor_id m') ≡ false) × (is_empty (image_id m') ≡ false))
            (λ _. ⊥)
            (Stages.image_or_error env clients helper wx s)
            t
    unfolding Stages.image_or_error
    image_or_error-returns id flavor none s t e set set' h = absurd cc
    image_or_error-returns id flavor (some id') (false, m) t e set set' h =
        absurd (no_flag h.took.0)
    image_or_error-returns id flavor (some id') (true, m) t e set set' h =
        let same_id : id' ≡ id = cc in
        Ends-pure m (ap is_empty h.same_flavor ∙ set', ap is_empty (h.took.1 ∙ same_id) ∙ set)

    pub find_image-returns :
        (m : WxOneMachine) (t : Trace)
        → m.spec.image.name ≡ wanted
        → is_empty (flavor_id m) ≡ false
        → Ends
            (λ m' _. (is_empty (flavor_id m') ≡ false) × (is_empty (image_id m') ≡ false))
            (λ _. ⊥)
            (Stages.find_image env clients helper wx m)
            t
    unfolding Stages.find_image Operations.get_image_list
    find_image-returns m t same has =
        let (p, answered, found) = provides.images t g _ in
        let (named, image) = found in
        let (id, listed, set) = image in
        Ends-request_done _ (some p) g _ _ there answered (
          Ends-deref_known _ p refl (
            Ends-bind
              (scan_images-Scanning p.msg (flavor_id m) none (false, m) _ named
                (record { same_flavor = refl; same_name = same; took = refl }))
              λ s t1 h1. image_or_error-returns id (flavor_id m) _ s t1 listed set has h1))
