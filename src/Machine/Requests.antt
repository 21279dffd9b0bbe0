-- ===== src/Machine/Requests.antt =====
-- Which requests WXOneClusterToWXOneMachines enqueues.
use capi_wx_one.Base.{
  Bool, true, false, some, List, [], ◌∷◌, ◌≡◌, ◌↔◌, ◌⊎◌, inl, inr, refl, sym, ◌∙◌, subst, is_empty,
  if◌then◌else◌,
}
use capi_wx_one.Api.{WxOneCluster, CapiCluster, CapiMachine, NamespacedName}
use capi_wx_one.Effects.{Env, Trace, done}
use capi_wx_one.Effects.Ends.{Ends, Ends-some_bind, Ends-attempt, Ends-bind, Ends-pure}
use capi_wx_one.Machine.Reconciler.{
  requests_of, list_requests, requests_for_owner, wx_one_cluster_to_wx_one_machines,
}

-- Some element of the list has the property.
abbrev pub Exists : {A : Type 0} → (A → Type 0) → List A → Type 0
Exists P [] = ⊥
Exists P (x ∷ xs) = P x ⊎ Exists P xs

abbrev pub key_of : CapiMachine → NamespacedName
key_of m = record { namespace = m.namespace; name = m.name }

-- A machine under this key that has an infrastructure reference.
abbrev pub IsWanted : NamespacedName → CapiMachine → Type 0
IsWanted key m = (is_empty m.infrastructure_ref_name ≡ false) × (key_of m ≡ key)

-- The key is requested exactly where a machine wants it.
abbrev pub Requests : NamespacedName → List CapiMachine → List NamespacedName → Type 0
Requests key ms ks = Exists (λ k. k ≡ key) ks ↔ Exists (IsWanted key) ms

not_empty : true ≡ false → ⊥
not_empty h = cc

Exists-kept :
    (b : Bool) (key : NamespacedName) (m : CapiMachine) (ms : List CapiMachine)
    (rest : List NamespacedName)
    → is_empty m.infrastructure_ref_name ≡ b
    → Requests key ms rest
    → Requests key (m ∷ ms) (if b then rest else key_of m ∷ rest)
Exists-kept true key m ms rest eq (to, from) =
    (λ h. inr (to h), λ h. elim h [ inl w ↦ absurd (not_empty (sym eq ∙ w.0)) | inr w ↦ from w ])
Exists-kept false key m ms rest eq (to, from) = (
  λ h. elim h [ inl k ↦ inl (eq, k) | inr k ↦ inr (to k) ],
  λ h. elim h [ inl w ↦ inl w.1 | inr w ↦ inr (from w) ],
)

requests_of-Requests :
    (env : Env) (key : NamespacedName) (ms : List CapiMachine)
    → Requests key ms (requests_of env ms)
unfolding requests_of
requests_of-Requests env key [] = (λ h. h, λ h. h)
requests_of-Requests env key (m ∷ ms) =
    Exists-kept (is_empty m.infrastructure_ref_name) key m ms (requests_of env ms) refl
      (requests_of-Requests env key ms)

-- Where the owner cluster of a WXOneCluster is found and its machines are listed, the map from the
-- cluster returns, without an error or a panic, and a request for a key is among those it enqueues
-- exactly where a listed machine has this namespace and name and an infrastructure reference with a
-- name.
pub wx_one_cluster_to_wx_one_machines-Requests :
    (env : Env) (c : WxOneCluster) (cluster : CapiCluster) (ms : List CapiMachine)
    (key : NamespacedName) (t : Trace)
    → ((t : Trace) → env.kube.get_owner_cluster t c.meta ≡ done (some cluster))
    → ((t : Trace) → env.kube.list_machines t c.meta.namespace cluster.name ≡ done ms)
    → Ends (λ ks _. Requests key ms ks) (λ _. ⊥) (wx_one_cluster_to_wx_one_machines env (some c)) t
unfolding wx_one_cluster_to_wx_one_machines requests_for_owner list_requests
wx_one_cluster_to_wx_one_machines-Requests env c cluster ms key t owned listed =
    Ends-some_bind c _ (
      Ends-bind {Q = λ r _. r ≡ done (some cluster)} (Ends-attempt _ _ (owned t)) λ r t1 found.
        subst
          (λ r.
            Ends (λ ks _. Requests key ms ks) (λ _. ⊥) (requests_for_owner env c.meta.namespace r)
              t1)
          (sym found)
          (Ends-bind {Q = λ r _. r ≡ done ms} (Ends-attempt _ _ (listed t1)) λ r t2 found.
            Ends-pure _ (
              subst (λ r. Requests key ms (list_requests env r)) (sym found)
                (requests_of-Requests env key ms))))
