-- ===== src/Cluster/Deletion.antt =====
-- reconcileDelete: the deletions that WX-ONE answered, the finalizer, and their order.
use capi_wx_one.Base.{
  String, true, ◌&&◌, ◌≡◌, refl, sym, ap, ◌∙◌, ◌⊎◌, inl, inr, some, arith, is_empty, is_empty-empty,
}
use capi_wx_one.Api.{WxOneCluster, cluster_finalizer}
use capi_wx_one.Clients.{WxOneClients}
use capi_wx_one.Effects.{Env, Trace, Event, done, deleted_network, deleted_floating_ip, deleted_key}
use capi_wx_one.Effects.Ends.{
  Ends, IsClosed, Ends-bind, Ends-pure, Ends-if, Ends-call_bind, Ends-request_bind, Ends-consult,
}
use capi_wx_one.Cluster.Stages.{
  PatchHelper, subnet_id, floating_ip_id, ssh_key_id, project_id, new_helper, remove_network,
  remove_floating_ip, remove_ssh_key, drop_network, drop_floating_ip, drop_ssh_key, drop_finalizer,
  release,
}
use capi_wx_one.Effects.History.{Happened, now, earlier, later}
use capi_wx_one.Cluster.Keeps.{connect-Keeps}
use capi_wx_one.Cluster.Reconciler.{reconcile_delete}
use capi_wx_one.Cluster.Accounting.{stored}

-- A request to delete this resource of this project was answered without an error of the call.
abbrev pub IsNetworkDeletion : String → String → Event → Type 0
IsNetworkDeletion id project (deleted_network input (done answer)) =
    (input.id ≡ id) × (input.project_id ≡ project)
IsNetworkDeletion id project _ = ⊥

abbrev pub IsFloatingIpDeletion : String → String → Event → Type 0
IsFloatingIpDeletion id project (deleted_floating_ip input (done answer)) =
    (input.id ≡ id) × (input.project_id ≡ project)
IsFloatingIpDeletion id project _ = ⊥

abbrev pub IsKeyDeletion : String → String → Event → Type 0
IsKeyDeletion id project (deleted_key input (done answer)) =
    (input.id ≡ id) × (input.project_id ≡ some project)
IsKeyDeletion id project _ = ⊥

-- The three resources that the object recorded at the start, as far as they are gone by now.
module _ (old : WxOneCluster) where
  abbrev pub NetworkGone : Trace → Type 0
  NetworkGone t =
      (is_empty (subnet_id old) ≡ true)
      ⊎ Happened (IsNetworkDeletion old.status.network.resource_id (project_id old)) t

  abbrev pub FloatingIpGone : Trace → Type 0
  FloatingIpGone t =
      (is_empty (floating_ip_id old) ≡ true)
      ⊎ Happened (IsFloatingIpDeletion (floating_ip_id old) (project_id old)) t

  abbrev pub KeyGone : Trace → Type 0
  KeyGone t =
      (is_empty (ssh_key_id old) ≡ true)
      ⊎ Happened (IsKeyDeletion (ssh_key_id old) (project_id old)) t

module _ (start old : WxOneCluster) where
  -- The stored object has the finalizers that it had.
  abbrev pub Held : Trace → Type 0
  Held t = (stored start t).meta.finalizers ≡ old.meta.finalizers

  -- What the parts of reconcileDelete leave alone.
  pub record Steady (c : WxOneCluster) (t : Trace) : Type 0 where
    pub same_project : project_id c ≡ project_id old
    pub same_finalizers : c.meta.finalizers ≡ old.meta.finalizers
    pub held : Held t

  pub record PastNetwork (c : WxOneCluster) (t : Trace) : Type 0 where
    pub steady : Steady c t
    pub no_subnet : is_empty (subnet_id c) ≡ true
    pub network_gone : NetworkGone old t
    pub same_address : floating_ip_id c ≡ floating_ip_id old
    pub same_key : ssh_key_id c ≡ ssh_key_id old

  pub record PastAddress (c : WxOneCluster) (t : Trace) : Type 0 where
    pub steady : Steady c t
    pub no_subnet : is_empty (subnet_id c) ≡ true
    pub network_gone : NetworkGone old t
    pub no_address : is_empty (floating_ip_id c) ≡ true
    pub address_gone : FloatingIpGone old t
    pub same_key : ssh_key_id c ≡ ssh_key_id old

  pub record PastKey (c : WxOneCluster) (t : Trace) : Type 0 where
    pub steady : Steady c t
    pub no_subnet : is_empty (subnet_id c) ≡ true
    pub network_gone : NetworkGone old t
    pub no_address : is_empty (floating_ip_id c) ≡ true
    pub address_gone : FloatingIpGone old t
    pub no_key : is_empty (ssh_key_id c) ≡ true
    pub key_gone : KeyGone old t

  -- The end: nothing is recorded any more, WX-ONE has answered the deletion of all that was, and
  -- the API server has the object with the finalizers that RemoveFinalizer leaves.
  pub record Released (env : Env) (c : WxOneCluster) (t : Trace) : Type 0 where
    pub no_subnet : is_empty (subnet_id c) ≡ true
    pub no_address : is_empty (floating_ip_id c) ≡ true
    pub no_key : is_empty (ssh_key_id c) ≡ true
    pub network_gone : NetworkGone old t
    pub address_gone : FloatingIpGone old t
    pub key_gone : KeyGone old t
    pub finalizer_dropped :
        c.meta.finalizers ≡ env.kube.remove_finalizer old.meta.finalizers cluster_finalizer
    pub is_stored : stored start t ≡ c

module _ (env : Env) (start old : WxOneCluster) (clients : WxOneClients)
    (helper : PatchHelper) where
  drop_network-PastNetwork :
      (t : Trace)
      → Held start old t
      → Ends (PastNetwork start old) (Held start old) (drop_network env clients helper old) t
  unfolding drop_network
  drop_network-PastNetwork t h =
      Ends-request_bind _ _ _ h
        (λ answer.
          Ends-call_bind _ _
            (λ _ _. Ends-pure _ (record {
              steady = ground arith;
              no_subnet = is_empty-empty;
              network_gone = inr (earlier (now (refl, refl)));
              same_address = refl;
              same_key = refl;
            }))
            (λ x _. h))
        (λ x. h)

  drop_floating_ip-PastAddress :
      (c : WxOneCluster) (t : Trace)
      → PastNetwork start old c t
      → Ends (PastAddress start old) (Held start old) (drop_floating_ip env clients helper c) t
  unfolding drop_floating_ip
  drop_floating_ip-PastAddress c t h =
      Ends-request_bind _ _ _ h.steady.held
        (λ answer.
          Ends-call_bind _ _
            (λ _ _. Ends-pure _ (record {
              steady = ground arith;
              no_subnet = h.no_subnet;
              network_gone = later (later h.network_gone);
              no_address = is_empty-empty;
              address_gone = inr (earlier (now (h.same_address, h.steady.same_project)));
              same_key = h.same_key;
            }))
            (λ x _. h.steady.held))
        (λ x. h.steady.held)

  drop_ssh_key-PastKey :
      (c : WxOneCluster) (t : Trace)
      → PastAddress start old c t
      → Ends (PastKey start old) (Held start old) (drop_ssh_key env clients helper c) t
  unfolding drop_ssh_key
  drop_ssh_key-PastKey c t h =
      Ends-request_bind _ _ _ h.steady.held
        (λ answer.
          Ends-call_bind _ _
            (λ _ _. Ends-pure _ (record {
              steady = ground arith;
              no_subnet = h.no_subnet;
              network_gone = later (later h.network_gone);
              no_address = h.no_address;
              address_gone = later (later h.address_gone);
              no_key = is_empty-empty;
              key_gone = inr (earlier (now (h.same_key, ap some h.steady.same_project)));
            }))
            (λ x _. h.steady.held))
        (λ x. h.steady.held)

  drop_finalizer-Released :
      (c : WxOneCluster) (t : Trace)
      → PastKey start old c t
      → Ends (Released start old env) (Held start old) (drop_finalizer env clients helper c) t
  unfolding drop_finalizer
  drop_finalizer-Released c t h =
      Ends-call_bind _ _
        (λ _ _. Ends-pure _ (record {
          no_subnet = h.no_subnet;
          no_address = h.no_address;
          no_key = h.no_key;
          network_gone = later h.network_gone;
          address_gone = later h.address_gone;
          key_gone = later h.key_gone;
          finalizer_dropped =
              ap (λ fs. env.kube.remove_finalizer fs cluster_finalizer) h.steady.same_finalizers;
          is_stored = refl;
        }))
        (λ x _. h.steady.held)

  -- The test before the finalizer is dropped always passes here.
  release-Released :
      (c : WxOneCluster) (t : Trace)
      → PastKey start old c t
      → Ends (Released start old env) (Held start old) (release env clients helper c) t
  unfolding release
  release-Released c t h =
      Ends-if {b = is_empty (ssh_key_id c) && is_empty (subnet_id c) && is_empty (floating_ip_id c)}
        (λ _. drop_finalizer-Released c t h)
        (λ differs. absurd (ground (arith, h.no_subnet, h.no_address, h.no_key)))

Held-IsClosed : (start old : WxOneCluster) → IsClosed (Held start old)
Held-IsClosed start old = record {
  read_closed = λ q t h. h;
  posted_closed = λ url body t h. h;
  asked_closed = λ q t h. h;
}

-- Let reconcileDelete run on the object that the API server holds, in any environment. If it ends
-- with an error or a panic, the stored object still has the finalizers that it had. If it returns,
-- then no subnet, floating IP or SSH key is recorded, for each that was recorded a deletion request
-- with its id and the project's was answered without an error of the call, and the API server
-- stores the object with the finalizers that RemoveFinalizer leaves.
pub reconcile_delete-Released :
    (env : Env) (start old : WxOneCluster) (t : Trace)
    → stored start t ≡ old
    → Ends (Released start old env) (Held start old) (reconcile_delete env old) t
unfolding reconcile_delete remove_network remove_floating_ip remove_ssh_key new_helper
reconcile_delete-Released env start old t here =
    let held : Held start old t = ap (λ (c : WxOneCluster). c.meta.finalizers) here in
    Ends-bind
      (Ends-bind (Ends-consult {Q = λ _. Held start old} _ held (λ _ _. held))
        λ _ t0 h0. Ends-pure _ h0)
      λ helper t1 h1.
        Ends-bind (connect-Keeps env (Held start old) (Held-IsClosed start old) old t1 h1)
          λ clients t2 h2.
            Ends-bind
              (Ends-if
                (λ e. Ends-pure old (record {
                  steady = record { same_project = refl; same_finalizers = refl; held = h2 };
                  no_subnet = e;
                  network_gone = inl e;
                  same_address = refl;
                  same_key = refl;
                }))
                (λ _. drop_network-PastNetwork env start old clients helper t2 h2))
              λ c1 t3 h3.
                Ends-bind
                  (Ends-if
                    (λ e. Ends-pure c1 (record {
                      steady = h3.steady;
                      no_subnet = h3.no_subnet;
                      network_gone = h3.network_gone;
                      no_address = e;
                      address_gone = inl (ap is_empty (sym h3.same_address) ∙ e);
                      same_key = h3.same_key;
                    }))
                    (λ _. drop_floating_ip-PastAddress env start old clients helper c1 t3 h3))
                  λ c2 t4 h4.
                    Ends-bind
                      (Ends-if
                        (λ e. Ends-pure c2 (record {
                          steady = h4.steady;
                          no_subnet = h4.no_subnet;
                          network_gone = h4.network_gone;
                          no_address = h4.no_address;
                          address_gone = h4.address_gone;
                          no_key = e;
                          key_gone = inl (ap is_empty (sym h4.same_key) ∙ e);
                        }))
                        (λ _. drop_ssh_key-PastKey env start old clients helper c2 t4 h4))
                      λ c3 t5 h5. release-Released env start old clients helper c3 t5 h5
