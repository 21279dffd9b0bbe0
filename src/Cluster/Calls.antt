-- ===== src/Cluster/Calls.antt =====
-- How many calls one Reconcile of a WXOneCluster makes.
use capi_wx_one.Base.{◌+◌, ◌≤◌, String, Option, none, some, arith}
use capi_wx_one.Api.{WxOneCluster, CapiCluster, NamespacedName, LocalSecretReference}
use capi_wx_one.Clients.{WxOneClients}
use capi_wx_one.Clients.Login.{new_wx_one_clients, post, hash_password, checked}
use capi_wx_one.Graphql.Operations
use capi_wx_one.Graphql.Responses.{UserInformation}
use capi_wx_one.Effects.{Env, Trace, Reply, done, failed, pure, ◌>>=◌, Fields, GraphqlClient}
use capi_wx_one.Effects.Bounded.{
  length, Within, Within-bind, Within-more, Within-if, Within-pure, Within-throw, Within-lift,
  Within-embed, Within-consult, Within-deref, Within-first, Within-call, Within-attempt,
  Within-request,
}
use capi_wx_one.Cluster.Stages
use capi_wx_one.Cluster.Stages.{PatchHelper, patch, with_finalizers}
use capi_wx_one.Cluster.Reconciler.{
  reconcile, reconcile_normal, reconcile_delete, dispatch, dispatch_found,
}

module _ (env : Env) where
  hash_password-Within :
      (password : String) (challenge : Option Fields)
      → Within 0 (hash_password env password challenge)
  unfolding hash_password
  hash_password-Within password challenge = Within-bind 0 0 (Within-embed _) λ salt.
      Within-bind 0 0 (Within-embed _) λ text.
        Within-bind 0 0 (Within-embed _)
          λ date. Within-bind 0 0 (Within-embed _) λ rounds. Within-pure _

  checked-Within :
      (client : GraphqlClient) (r : Reply (Option UserInformation))
      → Within 0 (checked env client r)
  unfolding checked
  checked-Within client (done user) = Within-pure _
  checked-Within client (failed e) = Within-pure _

  new_wx_one_clients-Within :
      (host user pass : String) → Within 3 (new_wx_one_clients env host user pass)
  unfolding new_wx_one_clients post Operations.me
  new_wx_one_clients-Within host user pass = Within-bind 1 2 (Within-call _ _) λ response.
      Within-bind 0 2 (Within-lift _) λ challenge.
        Within-bind 0 2 (hash_password-Within _ _) λ hashed.
          Within-bind 1 1 (Within-call _ _) λ answer. Within-bind 0 1 (Within-lift _) λ login.
            Within-bind 0 1 (Within-first _) λ cookie.
              Within-bind 1 0 (Within-bind 0 1 (Within-deref _) λ c. Within-attempt _ _)
                λ reply. checked-Within _ reply

  choose_credentials-Within :
      (namespace : String) (ref : Option LocalSecretReference)
      → Within 1 (Stages.choose_credentials env namespace ref)
  unfolding Stages.choose_credentials Stages.read_secret
  choose_credentials-Within namespace none = Within-more 0 1 (omega arith) (Within-pure _)
  choose_credentials-Within namespace (some ref) =
      Within-bind 1 0 (Within-call _ _) λ s. Within-pure _

  connect-Within : (c : WxOneCluster) → Within 4 (Stages.connect env c)
  unfolding Stages.connect Stages.credentials
  connect-Within c =
      Within-bind 1 3 (choose_credentials-Within _ _) λ creds. new_wx_one_clients-Within _ _ _

  new_helper-Within : (c : WxOneCluster) → Within 0 (Stages.new_helper env c)
  unfolding Stages.new_helper
  new_helper-Within c = Within-bind 0 0 (Within-consult _) λ _. Within-pure _

  -- A patch, and the object returned.
  send : (helper : PatchHelper) (c : WxOneCluster) → Within 1 (patch env helper c >>= λ _. pure c)
  unfolding patch
  send helper c = Within-bind 1 0 (Within-call _ _) λ _. Within-pure _

  module _ (clients : WxOneClients) (helper : PatchHelper) (c : WxOneCluster) where
    ensure_project-Within : Within 1 (Stages.ensure_project env clients helper c)
    unfolding Stages.ensure_project Stages.fetch_project Operations.get_default_project
    ensure_project-Within =
        Within-if _
          (Within-bind 1 0 (Within-request _ _ _) λ answer.
            Within-bind 0 0 (Within-deref _)
              λ payload. Within-bind 0 0 (Within-deref _) λ project. Within-pure _)
          (Within-more 0 1 (omega arith) (Within-pure _))

    ensure_network-Within : Within 2 (Stages.ensure_network env clients helper c)
    unfolding Stages.ensure_network Stages.make_network Operations.create_network
    ensure_network-Within =
        Within-if _
          (Within-bind 1 1 (Within-request _ _ _) λ answer.
            Within-bind 0 1 (Within-deref _) λ payload. Within-bind 0 1 (Within-deref _) λ network.
              Within-bind 0 1 (Within-first _)
                λ entry. Within-bind 0 1 (Within-deref _) λ subnet. send helper _)
          (Within-more 0 2 (omega arith) (Within-pure _))

    ensure_floating_ip-Within : Within 2 (Stages.ensure_floating_ip env clients helper c)
    unfolding Stages.ensure_floating_ip Stages.make_floating_ip Operations.create_floating_ip
    ensure_floating_ip-Within =
        Within-if _
          (Within-bind 1 1 (Within-request _ _ _) λ answer.
            Within-bind 0 1 (Within-deref _)
              λ payload. Within-bind 0 1 (Within-deref _) λ address. send helper _)
          (Within-more 0 2 (omega arith) (Within-pure _))

    ensure_ssh_key-Within : Within 2 (Stages.ensure_ssh_key env clients helper c)
    unfolding Stages.ensure_ssh_key Stages.make_ssh_key Operations.create_key
    ensure_ssh_key-Within =
        Within-if _
          (Within-bind 1 1 (Within-request _ _ _) λ answer.
            Within-bind 0 1 (Within-deref _)
              λ payload. Within-bind 0 1 (Within-deref _) λ key. send helper _)
          (Within-more 0 2 (omega arith) (Within-pure _))

    ensure_ready-Within :
        (cluster : CapiCluster) → Within 1 (Stages.ensure_ready env clients helper cluster c)
    unfolding Stages.ensure_ready Stages.mark_ready
    ensure_ready-Within cluster =
        Within-if _ (send helper _) (Within-more 0 1 (omega arith) (Within-pure _))

    remove_network-Within : Within 2 (Stages.remove_network env clients helper c)
    unfolding Stages.remove_network Stages.drop_network Operations.delete_network
    remove_network-Within =
        Within-if _ (Within-more 0 2 (omega arith) (Within-pure _))
          (Within-bind 1 1 (Within-request _ _ _) λ answer. send helper _)

    remove_floating_ip-Within : Within 2 (Stages.remove_floating_ip env clients helper c)
    unfolding Stages.remove_floating_ip Stages.drop_floating_ip Operations.delete_floating_ip
    remove_floating_ip-Within =
        Within-if _ (Within-more 0 2 (omega arith) (Within-pure _))
          (Within-bind 1 1 (Within-request _ _ _) λ answer. send helper _)

    remove_ssh_key-Within : Within 2 (Stages.remove_ssh_key env clients helper c)
    unfolding Stages.remove_ssh_key Stages.drop_ssh_key Operations.delete_key
    remove_ssh_key-Within =
        Within-if _ (Within-more 0 2 (omega arith) (Within-pure _))
          (Within-bind 1 1 (Within-request _ _ _) λ answer. send helper _)

    release-Within : Within 1 (Stages.release env clients helper c)
    unfolding Stages.release Stages.drop_finalizer
    release-Within = Within-if _ (send helper _) (Within-more 0 1 (omega arith) (Within-pure _))

  reconcile_normal-Within :
      (c : WxOneCluster) (cluster : CapiCluster) → Within 13 (reconcile_normal env c cluster)
  unfolding reconcile_normal Stages.add_finalizer
  reconcile_normal-Within c cluster = Within-bind 0 13 (new_helper-Within c) λ helper.
      Within-bind 1 12 (send helper _) λ c1. Within-bind 4 8 (connect-Within c1) λ clients.
        Within-bind 1 7 (ensure_project-Within clients helper c1) λ c2.
          Within-bind 2 5 (ensure_network-Within clients helper c2) λ c3.
            Within-bind 2 3 (ensure_floating_ip-Within clients helper c3) λ c4.
              Within-bind 2 1 (ensure_ssh_key-Within clients helper c4)
                λ c5. ensure_ready-Within clients helper c5 cluster

  reconcile_delete-Within : (c : WxOneCluster) → Within 11 (reconcile_delete env c)
  unfolding reconcile_delete
  reconcile_delete-Within c = Within-bind 0 11 (new_helper-Within c) λ helper.
      Within-bind 4 7 (connect-Within c) λ clients.
        Within-bind 2 5 (remove_network-Within clients helper c) λ c1.
          Within-bind 2 3 (remove_floating_ip-Within clients helper c1) λ c2.
            Within-bind 2 1 (remove_ssh_key-Within clients helper c2)
              λ c3. release-Within clients helper c3

  dispatch-Within :
      (c : WxOneCluster) (owner : Option CapiCluster) → Within 13 (dispatch env c owner)
  unfolding dispatch
  dispatch-Within c none = Within-more 0 13 (omega arith) (Within-pure _)
  dispatch-Within c (some cluster) =
      Within-if _ (Within-bind 13 0 (reconcile_normal-Within c cluster) λ _. Within-pure _) (
        Within-more 11 13 (omega arith)
          (Within-bind 11 0 (reconcile_delete-Within c) λ _. Within-pure _))

  dispatch_found-Within : (r : Reply WxOneCluster) → Within 14 (dispatch_found env r)
  unfolding dispatch_found
  dispatch_found-Within (failed e) =
      Within-if _ (Within-more 0 14 (omega arith) (Within-pure _))
        (Within-more 0 14 (omega arith) (Within-throw e))
  dispatch_found-Within (done c) =
      Within-bind 1 13 (Within-call _ _) λ owner. dispatch-Within c owner

-- Whatever the API server, WX-ONE and the login answer, one Reconcile of a WXOneCluster ends after
-- at most 15 calls: it adds no more than 15 events to the trace that it starts from.
pub reconcile-bound :
    (env : Env) (name : NamespacedName) (t : Trace)
    → length (reconcile env name t).1 ≤ 15 + length t
unfolding reconcile
reconcile-bound env name t =
    (Within-bind 1 14 (Within-attempt _ _) λ found. dispatch_found-Within env found).holds t
