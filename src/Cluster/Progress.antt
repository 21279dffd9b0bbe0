-- ===== src/Cluster/Progress.antt =====
-- reconcileNormal against servers that answer.
use capi_wx_one.Base.{
  ⊤, String, true, false, Option, none, some, List, ◌∷◌, ◌≡◌, refl, arith, is_empty,
}
use capi_wx_one.Api.{WxOneCluster, CapiCluster, NamespacedName, Secret, LocalSecretReference}
use capi_wx_one.Graphql.Inputs.{CreateNetworkInput, CreateFloatingIpInput, CreateKeyInput}
use capi_wx_one.Graphql.Responses.{
  Answer, Payload, CreatedNetwork, CreatedSubnet, FloatingIp, CreatedKey, DefaultProject,
}
use capi_wx_one.Clients.{WxOneClients}
use capi_wx_one.Clients.Success.{LetsIn, new_wx_one_clients-returns}
use capi_wx_one.Effects.{Env, Trace, Reply, done, GraphqlClient}
use capi_wx_one.Effects.Ends.{Ends, Ends-bind, Ends-pure, Ends-if}
use capi_wx_one.Effects.Known.{
  Ends-call_done, Ends-consult_done, Ends-request_done, Ends-deref_known, Ends-first_cons,
}
use capi_wx_one.Cluster.Stages
use capi_wx_one.Cluster.Stages.{PatchHelper, subnet_id, floating_ip_id, ssh_key_id, project_id}
use capi_wx_one.Cluster.Reconciler.{reconcile_normal}
use capi_wx_one.Cluster.Ready.{is_complete}

-- An answer with a message, of which something holds.
abbrev pub Brings : {M : Type 0} → (M → Type 0) → Reply (Answer (Option M)) → Type 0
Brings {M} good r =
    (p : Payload (Option M)) × (m : M) × (r ≡ done (some p)) × (p.msg ≡ some m) × good m

abbrev pub HasSubnet : CreatedNetwork → Type 0
HasSubnet n =
    (s : CreatedSubnet) × (rest : List (Option CreatedSubnet)) × (n.subnets ≡ some s ∷ rest)
    × (is_empty s.id ≡ false)

-- The login and every call of the API server succeed.
pub record Serves (env : Env) : Type 0 where
  pub lets_in : LetsIn env
  pub helps : (t : Trace) (c : WxOneCluster) → env.kube.new_cluster_helper t c ≡ done tt
  pub patches : (t : Trace) (before c : WxOneCluster) → env.kube.patch_cluster t before c ≡ done tt
  pub has_secret :
      (t : Trace) (key : NamespacedName) → (s : Secret) × (env.kube.get_secret t key ≡ done s)

-- And WX-ONE makes what it is asked for and answers with ids.
pub record Cooperates (env : Env) : Type 0 where
  pub serves : Serves env
  pub project :
      (t : Trace) (c : GraphqlClient)
      → Brings (λ (p : DefaultProject). ⊤) (env.api.get_default_project t c)
  pub network :
      (t : Trace) (c : GraphqlClient) (input : CreateNetworkInput)
      → Brings HasSubnet (env.api.create_network t c input)
  pub floating_ip :
      (t : Trace) (c : GraphqlClient) (input : CreateFloatingIpInput)
      → Brings (λ (a : FloatingIp). is_empty a.id ≡ false) (env.api.create_floating_ip t c input)
  pub key :
      (t : Trace) (c : GraphqlClient) (input : CreateKeyInput)
      → Brings (λ (k : CreatedKey). is_empty k.id ≡ false) (env.api.create_key t c input)

module _ (env : Env) (serves : Serves env) where
  pub new_helper-returns :
      (c : WxOneCluster) (t : Trace) → Ends (λ _ _. Unit {0}) (λ _. ⊥) (Stages.new_helper env c) t
  unfolding Stages.new_helper
  new_helper-returns c t = Ends-consult_done _ tt _ (serves.helps t c) (Ends-pure _ tt)

  pub add_finalizer-returns :
      (helper : PatchHelper) (c : WxOneCluster) (t : Trace)
      → Ends (λ _ _. Unit {0}) (λ _. ⊥) (Stages.add_finalizer env helper c) t
  unfolding Stages.add_finalizer
  add_finalizer-returns helper c t = Ends-call_done _ tt _ _ (serves.patches _ _ _) (Ends-pure _ tt)

  choose_credentials-returns :
      (namespace : String) (ref : Option LocalSecretReference) (t : Trace)
      → Ends (λ _ _. Unit {0}) (λ _. ⊥) (Stages.choose_credentials env namespace ref) t
  unfolding Stages.choose_credentials Stages.read_secret
  choose_credentials-returns namespace none t = Ends-pure _ tt
  choose_credentials-returns namespace (some ref) t =
      let (s, found) = serves.has_secret t (record { namespace = namespace; name = ref.name }) in
      Ends-call_done _ s _ _ found (Ends-pure _ tt)

  pub connect-returns :
      (c : WxOneCluster) (t : Trace)
      → Ends
          (λ clients _. (g : GraphqlClient) × (clients.graphql_client ≡ some g))
          (λ _. ⊥)
          (Stages.connect env c)
          t
  unfolding Stages.connect Stages.credentials
  connect-returns c t =
      Ends-bind (choose_credentials-returns c.meta.namespace c.spec.credentials_secret_ref t)
        λ creds t1 _.
          new_wx_one_clients-returns env serves.lets_in creds.host creds.user creds.pass t1

module _ (env : Env) (cooperates : Cooperates env) where
  module _ (clients : WxOneClients) (g : GraphqlClient) (there : clients.graphql_client ≡ some g)
      (helper : PatchHelper) where
    fetch_project-returns :
        (c : WxOneCluster) (t : Trace)
        → Ends (λ _ _. Unit {0}) (λ _. ⊥) (Stages.fetch_project env clients helper c) t
    unfolding Stages.fetch_project
    fetch_project-returns c t =
        let (p, m, answered, brought, _) = cooperates.project t g in
        Ends-request_done _ (some p) g _ _ there answered
          (Ends-deref_known _ p refl (Ends-deref_known _ m brought (Ends-pure _ tt)))

    make_network-returns :
        (c : WxOneCluster) (t : Trace)
        → Ends
            (λ c' _. is_empty (subnet_id c') ≡ false)
            (λ _. ⊥)
            (Stages.make_network env clients helper c)
            t
    unfolding Stages.make_network
    make_network-returns c t =
        let (p, m, answered, brought, made) = cooperates.network t g _ in
        let (s, rest, listed, set) = made in
        Ends-request_done _ (some p) g _ _ there answered (
          Ends-deref_known _ p refl (
            Ends-deref_known _ m brought (
              Ends-first_cons _ (some s) rest listed (
                Ends-deref_known _ s refl
                  (Ends-call_done _ tt _ _ (cooperates.serves.patches _ _ _) (Ends-pure _ set))))))

    -- The id that was set before stays.
    make_floating_ip-returns :
        (c : WxOneCluster) (t : Trace)
        → is_empty (subnet_id c) ≡ false
        → Ends
            (λ c' _. (is_empty (subnet_id c') ≡ false) × (is_empty (floating_ip_id c') ≡ false))
            (λ _. ⊥)
            (Stages.make_floating_ip env clients helper c)
            t
    unfolding Stages.make_floating_ip
    make_floating_ip-returns c t has =
        let (p, m, answered, brought, set) = cooperates.floating_ip t g _ in
        Ends-request_done _ (some p) g _ _ there answered (
          Ends-deref_known _ p refl (
            Ends-deref_known _ m brought
              (Ends-call_done _ tt _ _ (cooperates.serves.patches _ _ _) (Ends-pure _ (has, set)))))

    make_ssh_key-returns :
        (c : WxOneCluster) (t : Trace)
        → is_empty (subnet_id c) ≡ false
        → is_empty (floating_ip_id c) ≡ false
        → Ends (λ c' _. is_complete c' ≡ true) (λ _. ⊥) (Stages.make_ssh_key env clients helper c) t
    unfolding Stages.make_ssh_key
    make_ssh_key-returns c t has has' =
        let (p, m, answered, brought, set) = cooperates.key t g _ in
        Ends-request_done _ (some p) g _ _ there answered (
          Ends-deref_known _ p refl (
            Ends-deref_known _ m brought (
              Ends-call_done _ tt _ _ (cooperates.serves.patches _ _ _)
                (Ends-pure _ (ground arith)))))

    mark_ready-returns :
        (cluster : CapiCluster) (c : WxOneCluster) (t : Trace)
        → is_complete c ≡ true
        → Ends
            (λ c' _. (is_complete c' ≡ true) × (c'.status.ready ≡ true))
            (λ _. ⊥)
            (Stages.mark_ready env clients helper cluster c)
            t
    unfolding Stages.mark_ready
    mark_ready-returns cluster c t complete =
        Ends-call_done _ tt _ _ (cooperates.serves.patches _ _ _) (Ends-pure _ (complete, refl))

-- Where every call to the API server succeeds, the login is accepted and WX-ONE makes what it is
-- asked for and answers with ids, one run of reconcileNormal returns without an error or a panic,
-- whatever the cluster records at its start; at its end the subnet, the floating IP and the SSH
-- key are recorded and the cluster is ready.
pub reconcile_normal-returns :
    (env : Env) (c : WxOneCluster) (cluster : CapiCluster) (t : Trace)
    → Cooperates env
    → Ends
        (λ c' _. (is_complete c' ≡ true) × (c'.status.ready ≡ true))
        (λ _. ⊥)
        (reconcile_normal env c cluster)
        t
unfolding reconcile_normal Stages.ensure_project Stages.ensure_network Stages.ensure_floating_ip
    Stages.ensure_ssh_key Stages.ensure_ready
reconcile_normal-returns env c cluster t coop =
    Ends-bind (new_helper-returns env coop.serves c t) λ helper t1 _.
      Ends-bind (add_finalizer-returns env coop.serves helper c t1) λ c1 t2 _.
        Ends-bind (connect-returns env coop.serves c1 t2) λ clients t3 (g, there).
          Ends-bind
            (Ends-if (λ _. fetch_project-returns env coop clients g there helper c1 t3)
              (λ _. Ends-pure c1 tt))
            λ c2 t4 _.
              Ends-bind
                (Ends-if (λ _. make_network-returns env coop clients g there helper c2 t4)
                  (λ e. Ends-pure c2 e))
                λ c3 t5 h5.
                  Ends-bind
                    (Ends-if
                      (λ _. make_floating_ip-returns env coop clients g there helper c3 t5 h5)
                      (λ e. Ends-pure c3 (h5, e)))
                    λ c4 t6 h6.
                      Ends-bind
                        (Ends-if
                          (λ _.
                            make_ssh_key-returns env coop clients g there helper c4 t6 h6.0 h6.1)
                          (λ e. Ends-pure c4 (complete c4 h6.0 h6.1 e)))
                        λ c5 t7 h7.
                          Ends-if
                            (λ _.
                              mark_ready-returns env coop clients g there helper cluster c5 t7 h7)
                            (λ incomplete. absurd (clash c5 h7 incomplete))
  where
    complete :
        (c' : WxOneCluster)
        → is_empty (subnet_id c') ≡ false
        → is_empty (floating_ip_id c') ≡ false
        → is_empty (ssh_key_id c') ≡ false
        → is_complete c' ≡ true
    complete c' a b d = ground arith

    clash : (c' : WxOneCluster) → is_complete c' ≡ true → is_complete c' ≡ false → ⊥
    clash c' a b = ground arith
