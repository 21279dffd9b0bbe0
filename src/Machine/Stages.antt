-- ===== src/Machine/Stages.antt =====
-- The parts of reconcileNormal of the WXOneMachine controller, in the order of the source. The
-- `wxOneMachine` and the `machine` that Go writes through pointers are passed on and returned.
-- Log lines are left out.
use capi_wx_one.Base.{
  ⊤, ℕ, String, ◌<>◌, Bool, true, false, ◌&&◌, ◌||◌, not, Option, none, some, List, [], ◌∷◌,
  is_empty, ◌==◌, lookup, insert, contains_key, Dict, if◌then◌else◌,
}
use capi_wx_one.Api.{
  WxOneCluster, WxOneMachine, CapiMachine, NamespacedName, MachineAddress, machine_finalizer,
  internal_ip,
}
use capi_wx_one.Graphql.Inputs.{InstanceAdditionalInput, FloatingGroupVmInput}
use capi_wx_one.Graphql.Responses.{ListedImage, CreatedInstance, instance_status_running}
use capi_wx_one.Graphql.Operations
use capi_wx_one.Clients.{WxOneClients}
use capi_wx_one.CloudInit.{cloud_init_yaml_to_json, add_persistent_lo_address_to_cloud_init}
use capi_wx_one.Effects.{
  Env, Exec, Outcome, ok, message, ◌>>=◌, ◌>>◌, call, consult, pure, throw, embed, deref, first,
  Event, Query,
}

abbrev pub pre_drain_hook : String
pre_drain_hook = "pre-drain.delete.hook.machine.cluster.x-k8s.io/manage-ecmp-route"

-- ctrl.Result; the time is in seconds, and 0 asks for no requeue
pub record Result : Type 0 where
  pub requeue_after : ℕ

pub record PatchHelper : Type 0 where
  pub before : WxOneMachine

-- The field writes `wxOneMachine.Status.… = …` and `wxOneMachine.Spec.ProviderID = …`.
module _ (m : WxOneMachine) where
  abbrev pub with_finalizers : List String → WxOneMachine
  with_finalizers fs = record m { meta = record m.meta { finalizers = fs } }

  abbrev pub with_flavor_id : String → WxOneMachine
  with_flavor_id id = record m {
    status = record m.status { flavor = record m.status.flavor { resource_id = id } };
  }

  abbrev pub with_image_id : String → WxOneMachine
  with_image_id id = record m {
    status = record m.status { image = record m.status.image { resource_id = id } };
  }

  abbrev pub with_instance_id : String → WxOneMachine
  with_instance_id id = record m {
    status = record m.status { instance_ref = record m.status.instance_ref { resource_id = id } };
  }

  abbrev pub with_attachement_id : String → WxOneMachine
  with_attachement_id id = record m {
    status = record m.status {
      floating_ip_attachement = record m.status.floating_ip_attachement { resource_id = id };
    };
  }

  abbrev pub with_provider_id : Option String → WxOneMachine
  with_provider_id p = record m { spec = record m.spec { provider_id = p } }

  abbrev pub with_addresses : List MachineAddress → WxOneMachine
  with_addresses l = record m { status = record m.status { addresses = some l } }

  abbrev pub with_ready : WxOneMachine
  with_ready = record m { status = record m.status { ready = true } }

  abbrev pub flavor_id : String
  flavor_id = m.status.flavor.resource_id

  abbrev pub image_id : String
  image_id = m.status.image.resource_id

  abbrev pub instance_id : String
  instance_id = m.status.instance_ref.resource_id

  abbrev pub attachement_id : String
  attachement_id = m.status.floating_ip_attachement.resource_id

-- `_, ok := machine.Annotations[PreDrainHook]`, on a map that may be nil
abbrev pub has_annotation : Option (Dict String) → Bool
has_annotation none = false
has_annotation (some d) = contains_key pre_drain_hook d

-- `machine.Annotations[PreDrainHook] = "true"`, after a nil map was replaced by an empty one
abbrev pub annotate : Option (Dict String) → Dict String
annotate none = insert pre_drain_hook "true" []
annotate (some d) = insert pre_drain_hook "true" d

module _ (env : Env) where
  unfoldable pub patch : PatchHelper → WxOneMachine → Exec ⊤
  patch helper m =
      call (λ t. env.kube.patch_machine t helper.before m) (Event.patched_machine helper.before m)

  -- r.Client.Update, which fills the object with what the server returns
  unfoldable pub update : CapiMachine → Exec CapiMachine
  update machine = call (λ t. env.kube.update_machine t machine) (Event.updated_machine machine)

  unfoldable pub new_helper : WxOneMachine → Exec PatchHelper
  new_helper m = do consult (λ t. env.kube.new_machine_helper t m); pure (record { before = m })

  unfoldable pub ensure_hook : CapiMachine → Exec CapiMachine
  unfolding update
  ensure_hook machine =
      if has_annotation machine.annotations
      then pure machine
      else update (record machine { annotations = some (annotate machine.annotations) })

  unfoldable pub add_finalizer : PatchHelper → WxOneMachine → Exec WxOneMachine
  unfolding patch
  add_finalizer helper m = do
    let m' = with_finalizers m (env.kube.add_finalizer m.meta.finalizers machine_finalizer)
    patch helper m'
    pure m'

  -- `&machine`'s role
  abbrev pub is_control_plane : CapiMachine → Bool
  is_control_plane machine = env.kube.is_control_plane_machine machine

  -- `addresses[i] = MachineAddress{Address: *str}`
  unfoldable pub read_addresses : List (Option String) → Exec (List MachineAddress)
  read_addresses [] = pure []
  read_addresses (a ∷ r) = do
    s ← deref a
    rest ← read_addresses r
    pure (record { kind = internal_ip; address = s } ∷ rest)

  -- The user data of the instance: a control plane machine gets the loopback address first.
  unfoldable pub user_data : Bool → String → String → Outcome String
  user_data control_plane addr value =
      elim (if control_plane
        then add_persistent_lo_address_to_cloud_init env.codec value addr
        else ok value) [
          | ok text ↦ cloud_init_yaml_to_json env.codec text
          | Outcome.err e ↦ Outcome.err e
          | Outcome.panic ↦ Outcome.panic
        ]

  unfoldable pub bootstrap_data : Option String → Exec String
  bootstrap_data none =
      throw (message "error retrieving bootstrap data: secret value key is missing")
  bootstrap_data (some value) = pure value

  module _ (clients : WxOneClients) (helper : PatchHelper) (wx : WxOneCluster) where
    unfoldable pub find_flavor : WxOneMachine → Exec WxOneMachine
    unfolding Operations.get_flavor_by_name patch
    find_flavor m = do
      payload ←
          deref (← Operations.get_flavor_by_name env clients.graphql_client m.spec.flavor.name)
      flavor ← deref payload.msg
      let m' = with_flavor_id m flavor.id
      patch helper m'
      pure m'

    unfoldable pub ensure_flavor : WxOneMachine → Exec WxOneMachine
    ensure_flavor m = if is_empty (flavor_id m) then find_flavor m else pure m

    unfoldable pub take_image : String → WxOneMachine → Exec (Bool × WxOneMachine)
    unfolding patch
    take_image id m = do let m' = with_image_id m id; patch helper m'; pure (true, m')

    -- The loop does not stop at the first image of the name.
    unfoldable pub scan_images :
        List (Option ListedImage) → Bool × WxOneMachine → Exec (Bool × WxOneMachine)
    scan_images [] s = pure s
    scan_images (i ∷ r) s = do
      image ← deref i
      name ← deref image.name
      s' ← if name == s.1.spec.image.name then take_image image.id s.1 else pure s
      scan_images r s'

    unfoldable pub image_or_error : Bool × WxOneMachine → Exec WxOneMachine
    image_or_error (true, m) = pure m
    image_or_error (false, m) = throw (message "image with name does not exist")

    unfoldable pub find_image : WxOneMachine → Exec WxOneMachine
    find_image m = do
      payload ←
          deref
            (← Operations.get_image_list env clients.graphql_client wx.status.project.resource_id)
      s ← scan_images payload.msg (false, m)
      image_or_error s

    unfoldable pub ensure_image : WxOneMachine → Exec WxOneMachine
    ensure_image m = if is_empty (image_id m) then find_image m else pure m

    -- What is recorded of a new instance.
    unfoldable pub record_instance : WxOneMachine → CreatedInstance → Exec WxOneMachine
    unfolding patch
    record_instance m instance' = do
      addresses ← read_addresses instance'.addresses
      let m' =
          with_addresses
            (with_instance_id (with_provider_id m (some ("wxone://" <> instance'.id))) instance'.id)
            addresses
      patch helper m'
      pure m'

    unfoldable pub make_instance : CapiMachine → String → WxOneMachine → Exec WxOneMachine
    make_instance machine secret_name m = do
      let key : NamespacedName = record { namespace = m.meta.namespace; name = secret_name }
      secret ← call (λ t. env.kube.get_secret t key) (λ _. Event.read (Query.get_secret key))
      value ← bootstrap_data (lookup "value" secret.entries)
      raw ← embed (user_data (is_control_plane machine) wx.status.floating_ip.ip value)
      let additional : InstanceAdditionalInput = record {
        v_tpm = none;
        uefi = none;
        sev_type = none;
        sev_options = none;
        user_data = some (record { content = raw; mode = some "deepmerge" });
      }
      payload ←
          deref
            (← Operations.create_instance env clients.graphql_client
              wx.status.network.subnet_reference.resource_id (flavor_id m) (image_id m)
              wx.status.project.resource_id machine.name (wx.status.ssh_key.resource_id ∷ [])
              wx.spec.availability_zone false (some additional))
      instance' ← deref payload.msg
      record_instance m instance'

    unfoldable pub ensure_instance : CapiMachine → String → WxOneMachine → Exec WxOneMachine
    ensure_instance machine secret_name m =
        if is_empty (instance_id m) && not (is_empty (image_id m)) && not (is_empty (flavor_id m))
        then make_instance machine secret_name m
        else pure m

    unfoldable pub attach : WxOneMachine → Exec WxOneMachine
    unfolding Operations.create_floating_group patch
    attach m = do
      let vm : FloatingGroupVmInput = record { priority = 0; vm = instance_id m }
      payload ←
          deref
            (← Operations.create_floating_group env clients.graphql_client
              wx.status.floating_ip.resource_id wx.status.project.resource_id (some vm ∷ [])
              (some false) (some true))
      member ← deref (← first payload.msg)
      let m' = with_attachement_id m member.id
      patch helper m'
      pure m'

    unfoldable pub ensure_attachement : CapiMachine → WxOneMachine → Exec WxOneMachine
    ensure_attachement machine m =
        if is_control_plane machine && not (is_empty (instance_id m)) && is_empty (attachement_id m)
        then attach m
        else pure m

    unfoldable pub mark_ready : WxOneMachine → Exec (WxOneMachine × Result)
    unfolding patch
    mark_ready m = do
      let m' = with_ready m
      patch helper m'
      pure (m', record { requeue_after = 0 })

    unfoldable pub check_running : WxOneMachine → Exec (WxOneMachine × Result)
    unfolding Operations.get_instance
    check_running m = do
      payload ←
          deref
            (← Operations.get_instance env clients.graphql_client (instance_id m)
              wx.status.project.resource_id)
      instance' ← deref payload.msg
      if instance'.status == instance_status_running
          then mark_ready m
          else pure (m, record { requeue_after = 10 })

    unfoldable pub ensure_ready : CapiMachine → WxOneMachine → Exec (WxOneMachine × Result)
    ensure_ready machine m =
        if ((is_control_plane machine && not (is_empty (attachement_id m)))
            || not (is_control_plane machine))
          && not (is_empty (instance_id m))
        then check_running m
        else pure (m, record { requeue_after = 0 })
