-- ===== src/Cluster/Finishes.antt =====
-- reconcileDelete against servers that answer.
use capi_wx_one.Base.{String, Option, some, ◌≡◌, is_empty, ◌&&◌}
use capi_wx_one.Api.{WxOneCluster}
use capi_wx_one.Graphql.Inputs.{DeleteNetworkInput, DeleteFloatingIpInput, DeleteKeyInput}
use capi_wx_one.Graphql.Responses.{Answer}
use capi_wx_one.Clients.{WxOneClients}
use capi_wx_one.Effects.{Env, Trace, done, GraphqlClient}
use capi_wx_one.Effects.Ends.{Ends, Ends-bind, Ends-pure, Ends-if, Ends-returns}
use capi_wx_one.Effects.Known.{Ends-call_done, Ends-request_done}
use capi_wx_one.Cluster.Stages
use capi_wx_one.Cluster.Stages.{PatchHelper, subnet_id, floating_ip_id, ssh_key_id}
use capi_wx_one.Cluster.Reconciler.{reconcile_delete}
use capi_wx_one.Cluster.Accounting.{stored}
use capi_wx_one.Cluster.Deletion.{Released, reconcile_delete-Released}
use capi_wx_one.Cluster.Progress.{Serves, new_helper-returns, connect-returns}

-- WX-ONE answers each deletion, with whatever text.
pub record Deletes (env : Env) : Type 0 where
  pub serves : Serves env
  pub network :
      (t : Trace) (c : GraphqlClient) (input : DeleteNetworkInput)
      → (a : Answer (Option String)) × (env.api.delete_network t c input ≡ done a)
  pub floating_ip :
      (t : Trace) (c : GraphqlClient) (input : DeleteFloatingIpInput)
      → (a : Answer (Option String)) × (env.api.delete_floating_ip t c input ≡ done a)
  pub key :
      (t : Trace) (c : GraphqlClient) (input : DeleteKeyInput)
      → (a : Answer (Option String)) × (env.api.delete_key t c input ≡ done a)

module _ (env : Env) (deletes : Deletes env) (clients : WxOneClients) (g : GraphqlClient)
    (there : clients.graphql_client ≡ some g) (helper : PatchHelper) (c : WxOneCluster)
    (t : Trace) where
  drop_network-returns :
      Ends (λ _ _. Unit {0}) (λ _. ⊥) (Stages.drop_network env clients helper c) t
  unfolding Stages.drop_network
  drop_network-returns =
      let (a, answered) = deletes.network t g _ in
      Ends-request_done _ a g _ _ there answered
        (Ends-call_done _ tt _ _ (deletes.serves.patches _ _ _) (Ends-pure _ tt))

  drop_floating_ip-returns :
      Ends (λ _ _. Unit {0}) (λ _. ⊥) (Stages.drop_floating_ip env clients helper c) t
  unfolding Stages.drop_floating_ip
  drop_floating_ip-returns =
      let (a, answered) = deletes.floating_ip t g _ in
      Ends-request_done _ a g _ _ there answered
        (Ends-call_done _ tt _ _ (deletes.serves.patches _ _ _) (Ends-pure _ tt))

  drop_ssh_key-returns :
      Ends (λ _ _. Unit {0}) (λ _. ⊥) (Stages.drop_ssh_key env clients helper c) t
  unfolding Stages.drop_ssh_key
  drop_ssh_key-returns =
      let (a, answered) = deletes.key t g _ in
      Ends-request_done _ a g _ _ there answered
        (Ends-call_done _ tt _ _ (deletes.serves.patches _ _ _) (Ends-pure _ tt))

  release-returns : Ends (λ _ _. Unit {0}) (λ _. ⊥) (Stages.release env clients helper c) t
  unfolding Stages.release Stages.drop_finalizer
  release-returns =
      Ends-if {b = is_empty (ssh_key_id c) && is_empty (subnet_id c) && is_empty (floating_ip_id c)}
        (λ _. Ends-call_done _ tt _ _ (deletes.serves.patches _ _ _) (Ends-pure _ tt))
        (λ _. Ends-pure _ tt)

reconcile_delete-returns :
    (env : Env) (deletes : Deletes env) (c : WxOneCluster) (t : Trace)
    → Ends (λ _ _. Unit {0}) (λ _. ⊥) (reconcile_delete env c) t
unfolding reconcile_delete Stages.remove_network Stages.remove_floating_ip Stages.remove_ssh_key
reconcile_delete-returns env deletes c t =
    Ends-bind (new_helper-returns env deletes.serves c t) λ helper t1 _.
      Ends-bind (connect-returns env deletes.serves c t1) λ clients t2 (g, there).
        Ends-bind
          (Ends-if (λ _. Ends-pure c tt)
            (λ _. drop_network-returns env deletes clients g there helper c t2))
          λ c1 t3 _.
            Ends-bind
              (Ends-if (λ _. Ends-pure c1 tt)
                (λ _. drop_floating_ip-returns env deletes clients g there helper c1 t3))
              λ c2 t4 _.
                Ends-bind
                  (Ends-if (λ _. Ends-pure c2 tt)
                    (λ _. drop_ssh_key-returns env deletes clients g there helper c2 t4))
                  λ c3 t5 _. release-returns env deletes clients g there helper c3 t5

-- Where every call to the API server succeeds, the login is accepted and WX-ONE answers each
-- deletion, one run of the cluster's reconcileDelete on the stored object returns without an error
-- or a panic; at its end no resource is recorded, WX-ONE has answered the deletion of each that
-- was, and the object is stored with the finalizers that RemoveFinalizer leaves.
pub reconcile_delete-finishes :
    (env : Env) (start old : WxOneCluster) (t : Trace)
    → stored start t ≡ old
    → Deletes env
    → Ends (Released start old env) (λ _. ⊥) (reconcile_delete env old) t
reconcile_delete-finishes env start old t here deletes =
    Ends-returns (reconcile_delete-Released env start old t here)
      (reconcile_delete-returns env deletes old t)
