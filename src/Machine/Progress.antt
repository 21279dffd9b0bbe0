-- ===== src/Machine/Progress.antt =====
-- What the machine's reconcileNormal asks of the servers.
pub mod Image
pub mod Normal
use capi_wx_one.Base.{
  ⊤, ℕ, String, Bool, true, false, Option, none, some, List, [], ◌∷◌, ◌≡◌, refl, sym, ap, ◌∙◌,
  arith, is_empty, if◌then◌else◌, ◌&&◌, ◌||◌, not, lookup, ◌==◌, eq_iff, eq_refl,
}
use capi_wx_one.Api.{WxOneCluster, WxOneMachine, CapiCluster, CapiMachine, Secret, NamespacedName}
use capi_wx_one.Graphql.Inputs.{
  GetFlavorByNameInput, GetImageListInput, GetInstanceInput, CreateInstanceInput,
  CreateFloatingGroupInput,
}
use capi_wx_one.Graphql.Responses.{
  Answer, Payload, FoundFlavor, ListedImage, CreatedInstance, FloatingGroupMember, FoundInstance,
  instance_status_running,
}
use capi_wx_one.Graphql.Operations
use capi_wx_one.Clients.{WxOneClients}
use capi_wx_one.Effects.{Env, Trace, Reply, Outcome, ok, done, GraphqlClient, pure, ◌>>=◌}
use capi_wx_one.Effects.Ends.{Ends, Ends-bind, Ends-pure, Ends-if, Ends-mono, Ends-some_bind}
use capi_wx_one.Effects.Known.{
  Ends-call_done, Ends-request_done, Ends-consult_done, Ends-deref_known, Ends-first_cons,
  Ends-embed_ok, Ends-call_last,
}
use capi_wx_one.Cluster.Progress.{Serves, Brings, connect-returns}
use capi_wx_one.Machine.Stages
use capi_wx_one.Machine.Stages.{
  PatchHelper, Result, has_annotation, flavor_id, image_id, instance_id, attachement_id,
  is_control_plane, user_data,
}
use capi_wx_one.Machine.Reconciler
use capi_wx_one.Machine.Reconciler.{reconcile_normal}
use capi_wx_one.Machine.Images.{last_named, is_named, id_of, Took}

-- Every listed image is there and has a name.
abbrev pub AllNamed : List (Option ListedImage) → Type 0
AllNamed [] = ⊤
AllNamed (none ∷ r) = ⊥
AllNamed (some i ∷ r) = ((n : String) × (i.name ≡ some n)) × AllNamed r

abbrev pub NoNil : List (Option String) → Type 0
NoNil [] = ⊤
NoNil (none ∷ r) = ⊥
NoNil (some a ∷ r) = NoNil r

-- An image of the name, with an id.
abbrev pub HasImage : String → List (Option ListedImage) → Type 0
HasImage wanted l =
    AllNamed l × ((id : String) × (last_named wanted l none ≡ some id) × (is_empty id ≡ false))

-- Bootstrap data that can be converted.
abbrev pub HasUserData : Env → Secret → Type 0
HasUserData env s =
    (v : String) × (lookup "value" s.entries ≡ some v)
    × ((control_plane : Bool) (addr : String)
        → (raw : String) × (user_data env control_plane addr v ≡ ok raw))

-- Every call succeeds, the image is there, and WX-ONE makes a running instance.
pub record Provides (env : Env) (wanted : String) : Type 0 where
  pub serves : Serves env
  pub helps : (t : Trace) (m : WxOneMachine) → env.kube.new_machine_helper t m ≡ done tt
  pub patches : (t : Trace) (before m : WxOneMachine) → env.kube.patch_machine t before m ≡ done tt
  pub updates :
      (t : Trace) (m : CapiMachine)
      → (got : CapiMachine) × (env.kube.update_machine t m ≡ done got)
        × (got.data_secret_name ≡ m.data_secret_name)
  pub bootstrap :
      (t : Trace) (key : NamespacedName)
      → (s : Secret) × (env.kube.get_secret t key ≡ done s) × HasUserData env s
  pub flavor :
      (t : Trace) (c : GraphqlClient) (input : GetFlavorByNameInput)
      → Brings (λ (f : FoundFlavor). is_empty f.id ≡ false) (env.api.get_flavor_by_name t c input)
  pub images :
      (t : Trace) (c : GraphqlClient) (input : GetImageListInput)
      → (p : Payload (List (Option ListedImage))) × (env.api.get_image_list t c input
          ≡ done (some p))
        × HasImage wanted p.msg
  pub instance_made :
      (t : Trace) (c : GraphqlClient) (input : CreateInstanceInput)
      → Brings
          (λ (i : CreatedInstance). (is_empty i.id ≡ false) × NoNil i.addresses)
          (env.api.create_instance t c input)
  pub member :
      (t : Trace) (c : GraphqlClient) (input : CreateFloatingGroupInput)
      → (p : Payload (List (Option FloatingGroupMember))) × (m : FloatingGroupMember) × (rest : List
          (Option FloatingGroupMember))
        × (env.api.create_floating_group t c input ≡ done (some p))
        × (p.msg ≡ some m ∷ rest)
        × (is_empty m.id ≡ false)
  pub running :
      (t : Trace) (c : GraphqlClient) (input : GetInstanceInput)
      → Brings
          (λ (i : FoundInstance). i.status ≡ instance_status_running)
          (env.api.get_instance t c input)
