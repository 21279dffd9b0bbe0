-- ===== src/Cluster/Stages.antt =====
-- The parts of reconcileNormal and reconcileDelete of the WXOneCluster controller, in the order of
-- the source. Go's `wxoneCluster` is a pointer to one object that only this run writes; here each
-- part takes the object and returns it. Log lines are left out.
use capi_wx_one.Base.{
  ⊤, String, true, ◌&&◌, not, Option, none, some, List, map, elements, is_empty, text_at,
  if◌then◌else◌,
}
use capi_wx_one.Api.{
  WxOneCluster, Subnet, ApiEndpoint, NamespacedName, CapiCluster, cluster_finalizer,
  LocalSecretReference,
}
use capi_wx_one.Graphql.Inputs.{SubnetInput}
use capi_wx_one.Graphql.Operations
use capi_wx_one.Clients.{WxOneClients, new_wx_one_clients}
use capi_wx_one.Effects.{Env, Exec, ◌>>=◌, ◌>>◌, call, consult, pure, deref, first, Event, Query}
use Prim.Native.Nat.{compare, Ordering}

-- What patch.NewHelper keeps: the object before the changes.
pub record PatchHelper : Type 0 where
  pub before : WxOneCluster

-- The value of `wxOneClients.graphqlClient` and the credentials, for both controllers: host, user
-- and password of the secret that the cluster names, or three empty texts.
pub record Credentials : Type 0 where
  pub host : String
  pub user : String
  pub pass : String

-- The field writes `wxoneCluster.Status.… = …` and `wxoneCluster.Spec.… = …`.
module _ (c : WxOneCluster) where
  abbrev pub with_finalizers : List String → WxOneCluster
  with_finalizers fs = record c { meta = record c.meta { finalizers = fs } }

  abbrev pub with_project_id : String → WxOneCluster
  with_project_id id = record c {
    status = record c.status { project = record c.status.project { resource_id = id } };
  }

  abbrev pub with_network_ids : String → String → WxOneCluster
  with_network_ids id subnet_id = record c {
    status = record c.status {
      network = record {
        resource_id = id;
        subnet_reference = record c.status.network.subnet_reference { resource_id = subnet_id };
      };
    };
  }

  abbrev pub with_floating_ip : String → String → WxOneCluster
  with_floating_ip id ip = record c {
    status = record c.status { floating_ip = record { resource_id = id; ip = ip } };
  }

  abbrev pub with_ssh_key_id : String → WxOneCluster
  with_ssh_key_id id = record c {
    status = record c.status { ssh_key = record c.status.ssh_key { resource_id = id } };
  }

  abbrev pub with_endpoint : ApiEndpoint → WxOneCluster
  with_endpoint e = record c { spec = record c.spec { control_plane_endpoint = e } }

  abbrev pub with_ready : WxOneCluster
  with_ready = record c { status = record c.status { ready = true } }

  -- The three ids that the source tests.
  abbrev pub subnet_id : String
  subnet_id = c.status.network.subnet_reference.resource_id

  abbrev pub floating_ip_id : String
  floating_ip_id = c.status.floating_ip.resource_id

  abbrev pub ssh_key_id : String
  ssh_key_id = c.status.ssh_key.resource_id

  abbrev pub project_id : String
  project_id = c.status.project.resource_id

-- `subnetInput[i] = &SubnetInput{…}`
abbrev pub subnet_input : Subnet → Option SubnetInput
subnet_input s = some (record { name = s.name; ip_version = s.ip_version; cidr = some s.cidr })

-- The port test `Port != 0`.
abbrev pub or_port : ApiEndpoint → ApiEndpoint → ApiEndpoint
or_port e own = elim (compare e.port 0) [ Ordering.eq ↦ own | _ ↦ record own { port = e.port } ]

abbrev pub or_host : ApiEndpoint → ApiEndpoint → ApiEndpoint
or_host e own = if is_empty e.host then own else record own { host = e.host }

-- The two endpoints that the last part of reconcileNormal writes: that of its copy of the owner
-- cluster, which is not written back, and that of the WXOneCluster.
unfoldable pub set_endpoints : CapiCluster → WxOneCluster → CapiCluster × WxOneCluster
set_endpoints cluster c =
    let e : ApiEndpoint = record { host = c.status.floating_ip.ip; port = 6443 } in
    let cluster' = record cluster { control_plane_endpoint = e } in
    (
      cluster',
      with_endpoint c
          (or_port cluster'.control_plane_endpoint (or_host cluster'.control_plane_endpoint e)),
    )

module _ (env : Env) where
  -- patchHelper.Patch
  unfoldable pub patch : PatchHelper → WxOneCluster → Exec ⊤
  patch helper c =
      call (λ t. env.kube.patch_cluster t helper.before c) (Event.patched_cluster helper.before c)

  unfoldable pub new_helper : WxOneCluster → Exec PatchHelper
  new_helper c = do consult (λ t. env.kube.new_cluster_helper t c); pure (record { before = c })

  unfoldable pub read_secret : String → LocalSecretReference → Exec Credentials
  read_secret namespace ref = do
    let key : NamespacedName = record { namespace = namespace; name = ref.name }
    s ← call (λ t. env.kube.get_secret t key) (λ _. Event.read (Query.get_secret key))
    pure (record {
      host = text_at "host" s.entries;
      user = text_at "username" s.entries;
      pass = text_at "password" s.entries;
    })

  unfoldable pub choose_credentials : String → Option LocalSecretReference → Exec Credentials
  choose_credentials namespace none = pure (record { host = ""; user = ""; pass = "" })
  choose_credentials namespace (some ref) = read_secret namespace ref

  unfoldable pub credentials : WxOneCluster → Exec Credentials
  credentials c = choose_credentials c.meta.namespace c.spec.credentials_secret_ref

  unfoldable pub connect : WxOneCluster → Exec WxOneClients
  connect c = do creds ← credentials c; new_wx_one_clients env creds.host creds.user creds.pass

  module _ (clients : WxOneClients) (helper : PatchHelper) where
    unfoldable pub fetch_project : WxOneCluster → Exec WxOneCluster
    unfolding Operations.get_default_project
    fetch_project c = do
      payload ← deref (← Operations.get_default_project env clients.graphql_client)
      project ← deref payload.msg
      pure (with_project_id c project.id)

    unfoldable pub ensure_project : WxOneCluster → Exec WxOneCluster
    unfolding fetch_project
    ensure_project c = if is_empty (project_id c) then fetch_project c else pure c

    unfoldable pub make_network : WxOneCluster → Exec WxOneCluster
    unfolding Operations.create_network patch
    make_network c = do
      payload ←
          deref
            (← Operations.create_network env clients.graphql_client c.spec.network.name
              (some c.spec.availability_zone) (some (project_id c))
              (map subnet_input (elements c.spec.network.subnets)))
      network ← deref payload.msg
      subnet ← deref (← first network.subnets)
      let c' = with_network_ids c network.id subnet.id
      patch helper c'
      pure c'

    unfoldable pub ensure_network : WxOneCluster → Exec WxOneCluster
    ensure_network c = if is_empty (subnet_id c) then make_network c else pure c

    unfoldable pub make_floating_ip : WxOneCluster → Exec WxOneCluster
    unfolding Operations.create_floating_ip patch
    make_floating_ip c = do
      payload ← deref (← Operations.create_floating_ip env clients.graphql_client (project_id c))
      address ← deref payload.msg
      let c' = with_floating_ip c address.id address.ip
      patch helper c'
      pure c'

    unfoldable pub ensure_floating_ip : WxOneCluster → Exec WxOneCluster
    ensure_floating_ip c = if is_empty (floating_ip_id c) then make_floating_ip c else pure c

    -- The key takes the network's name.
    unfoldable pub make_ssh_key : WxOneCluster → Exec WxOneCluster
    unfolding Operations.create_key patch
    make_ssh_key c = do
      payload ←
          deref
            (← Operations.create_key env clients.graphql_client c.spec.network.name
              c.spec.ssh_key.public_key (some (project_id c)) (some c.spec.ssh_key.project_wide))
      key ← deref payload.msg
      let c' = with_ssh_key_id c key.id
      patch helper c'
      pure c'

    unfoldable pub ensure_ssh_key : WxOneCluster → Exec WxOneCluster
    ensure_ssh_key c = if is_empty (ssh_key_id c) then make_ssh_key c else pure c

    unfoldable pub mark_ready : CapiCluster → WxOneCluster → Exec WxOneCluster
    unfolding set_endpoints patch
    mark_ready cluster c = do
      let c' = with_ready (set_endpoints cluster c).1
      patch helper c'
      pure c'

    unfoldable pub ensure_ready : CapiCluster → WxOneCluster → Exec WxOneCluster
    ensure_ready cluster c =
        if not (is_empty (subnet_id c))
          && not (is_empty (floating_ip_id c))
          && not (is_empty (ssh_key_id c))
        then mark_ready cluster c
        else pure c

    unfoldable pub drop_network : WxOneCluster → Exec WxOneCluster
    unfolding Operations.delete_network patch
    drop_network c = do
      Operations.delete_network env clients.graphql_client c.status.network.resource_id
          (project_id c)
      let c' = with_network_ids c "" ""
      patch helper c'
      pure c'

    unfoldable pub remove_network : WxOneCluster → Exec WxOneCluster
    remove_network c = if is_empty (subnet_id c) then pure c else drop_network c

    -- The address stays in the status.
    unfoldable pub drop_floating_ip : WxOneCluster → Exec WxOneCluster
    unfolding Operations.delete_floating_ip patch
    drop_floating_ip c = do
      Operations.delete_floating_ip env clients.graphql_client (floating_ip_id c) (project_id c)
      let c' = with_floating_ip c "" c.status.floating_ip.ip
      patch helper c'
      pure c'

    unfoldable pub remove_floating_ip : WxOneCluster → Exec WxOneCluster
    remove_floating_ip c = if is_empty (floating_ip_id c) then pure c else drop_floating_ip c

    unfoldable pub drop_ssh_key : WxOneCluster → Exec WxOneCluster
    unfolding Operations.delete_key patch
    drop_ssh_key c = do
      Operations.delete_key env clients.graphql_client (ssh_key_id c) (some (project_id c))
      let c' = with_ssh_key_id c ""
      patch helper c'
      pure c'

    unfoldable pub remove_ssh_key : WxOneCluster → Exec WxOneCluster
    remove_ssh_key c = if is_empty (ssh_key_id c) then pure c else drop_ssh_key c

    unfoldable pub drop_finalizer : WxOneCluster → Exec WxOneCluster
    unfolding patch
    drop_finalizer c = do
      let c' = with_finalizers c (env.kube.remove_finalizer c.meta.finalizers cluster_finalizer)
      patch helper c'
      pure c'

    unfoldable pub release : WxOneCluster → Exec WxOneCluster
    release c =
        if is_empty (ssh_key_id c) && is_empty (subnet_id c) && is_empty (floating_ip_id c)
        then drop_finalizer c
        else pure c

  unfoldable pub add_finalizer : PatchHelper → WxOneCluster → Exec WxOneCluster
  unfolding patch
  add_finalizer helper c = do
    let c' = with_finalizers c (env.kube.add_finalizer c.meta.finalizers cluster_finalizer)
    patch helper c'
    pure c'
