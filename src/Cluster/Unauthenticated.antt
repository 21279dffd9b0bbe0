-- ===== src/Cluster/Unauthenticated.antt =====
-- The login and reconcileNormal where WX-ONE refuses the query `me`.
use capi_wx_one.Base.{String, true, false, Option, none, some, ◌≡◌, refl, arith, is_empty}
use capi_wx_one.Api.{WxOneCluster, CapiCluster}
use capi_wx_one.Graphql.Operations
use capi_wx_one.Graphql.Responses.{UserInformation}
use capi_wx_one.Clients.{WxOneClients}
use capi_wx_one.Clients.Login.{new_wx_one_clients, checked}
use capi_wx_one.Effects.{Env, Trace, Error, Reply, done, failed, GraphqlClient}
use capi_wx_one.Effects.Ends.{
  Ends, Ends-bind, Ends-pure, Ends-if, Ends-call_bind, Ends-deref_bind, Ends-any, Ends-attempt,
  Ends-some_bind,
}
use capi_wx_one.Cluster.Stages.{
  PatchHelper, connect, fetch_project, project_id, ensure_project, add_finalizer,
}
use capi_wx_one.Cluster.Reconciler.{reconcile_normal}

-- WX-ONE refuses every `me`.
abbrev pub RefusesMe : Env → Type 0
RefusesMe env = (t : Trace) (c : GraphqlClient) → (e : Error) × (env.api.me t c ≡ failed e)

module _ (env : Env) (refuses : RefusesMe env) where
  abbrev NoClient : WxOneClients → Trace → Type 0
  NoClient clients t = clients.graphql_client ≡ none

  me-refused :
      (client : GraphqlClient) (t : Trace)
      → Ends
          (λ r _. (e : Error) × (r ≡ failed e))
          (λ _. Unit {0})
          (Operations.me env (some client))
          t
  unfolding Operations.me
  me-refused client t = Ends-some_bind client _ (Ends-attempt _ _ (refuses t client))

  checked-NoClient :
      (client : GraphqlClient) (r : Reply (Option UserInformation)) (t : Trace)
      → (e : Error) × (r ≡ failed e)
      → Ends NoClient (λ _. Unit {0}) (checked env client r) t
  unfolding checked
  checked-NoClient client (done u) t (e, p) = absurd cc
  checked-NoClient client (failed x) t (e, p) = Ends-pure _ refl

  -- Where WX-ONE refuses every query `me`, a login that returns no error returns no client.
  pub new_wx_one_clients-no_client :
      (host user pass : String) (t : Trace)
      → Ends
          (λ clients _. clients.graphql_client ≡ none)
          (λ _. Unit {0})
          (new_wx_one_clients env host user pass)
          t
  unfolding new_wx_one_clients
  new_wx_one_clients-no_client host user pass t = Ends-bind Ends-any λ response t1 _.
      Ends-bind Ends-any λ challenge t2 _. Ends-bind Ends-any λ hashed t3 _.
        Ends-bind Ends-any λ answer t4 _. Ends-bind Ends-any λ login t5 _.
          Ends-bind Ends-any
            λ cookie t6 _. Ends-bind (me-refused _ t6) λ r t7 h7. checked-NoClient _ r t7 h7

  connect-NoClient :
      (c : WxOneCluster) (t : Trace) → Ends NoClient (λ _. Unit {0}) (connect env c) t
  unfolding connect
  connect-NoClient c t =
      Ends-bind Ends-any
        λ creds t1 _. new_wx_one_clients-no_client creds.host creds.user creds.pass t1

  fetch_project-never :
      (clients : WxOneClients) (helper : PatchHelper) (c : WxOneCluster) (t : Trace)
      → clients.graphql_client ≡ none
      → Ends (λ _ _. ⊥) (λ _. Unit {0}) (fetch_project env clients helper c) t
  unfolding fetch_project
  fetch_project-never clients helper c t e =
      Ends-bind {Q = λ _ _. ⊥} (Ends-deref_bind (λ _. tt) λ client e'. absurd cc)
        λ _ _ never. absurd never

  add_finalizer-project :
      (helper : PatchHelper) (c : WxOneCluster) (t : Trace)
      → Ends (λ c' _. project_id c' ≡ project_id c) (λ _. Unit {0}) (add_finalizer env helper c) t
  unfolding add_finalizer
  add_finalizer-project helper c t = Ends-call_bind _ _ (λ _ _. Ends-pure _ refl) (λ _ _. tt)

  -- Where WX-ONE refuses every query `me`, reconcileNormal on a cluster whose project is not yet
  -- recorded never returns without an error.
  pub reconcile_normal-never_ok :
      (c : WxOneCluster) (cluster : CapiCluster) (t : Trace)
      → is_empty (project_id c) ≡ true
      → Ends (λ _ _. ⊥) (λ _. Unit {0}) (reconcile_normal env c cluster) t
  unfolding reconcile_normal ensure_project
  reconcile_normal-never_ok c cluster t unset = Ends-bind Ends-any λ helper t1 _.
      Ends-bind (add_finalizer-project helper c t1) λ c1 t2 same.
        Ends-bind (connect-NoClient c1 t2) λ clients t3 no_client.
          Ends-bind
            (Ends-if {Q = λ _ _. ⊥} {b = is_empty (project_id c1)}
              (λ _. fetch_project-never clients helper c1 t3 no_client)
              (λ set. absurd (clash c1 same set)))
            λ _ _ never. absurd never
    where
      clash :
          (c1 : WxOneCluster) → project_id c1 ≡ project_id c → is_empty (project_id c1) ≡ false → ⊥
      clash c1 same set = ground arith
