-- ===== src/Webhook/Immutable.antt =====
-- Which updates of a WXOneCluster and of a WXOneMachine the handlers admit, field by field.
use capi_wx_one.Base.{Bool, true, false, ◌≡◌, refl, ap, ◌↔◌}
use capi_wx_one.Api.{WxOneCluster, WxOneMachine, WxOneClusterSpec, WxOneMachineSpec}
use capi_wx_one.Api.Equality.{deep_equal, WxOneClusterSpec-discrete, WxOneMachineSpec-discrete}
use capi_wx_one.Webhook.Validators.{
  accept, refuse, unchanged, update_cluster, update_machine, with_endpoint_of, with_provider_of,
}

-- All of a cluster's spec but its endpoint.
pub record SameCluster (a b : WxOneClusterSpec) : Type 0 where
  pub same_project : a.project ≡ b.project
  pub same_zone : a.availability_zone ≡ b.availability_zone
  pub same_network : a.network ≡ b.network
  pub same_ssh_key : a.ssh_key ≡ b.ssh_key
  pub same_credentials : a.credentials_secret_ref ≡ b.credentials_secret_ref

-- All of a machine's spec but its provider id.
pub record SameMachine (a b : WxOneMachineSpec) : Type 0 where
  pub same_flavor : a.flavor ≡ b.flavor
  pub same_image : a.image ≡ b.image

module _ {A : Type 0} (a b : A) where
  decided : (d : Dec (a ≡ b)) → (elim d [ yes p ↦ true | no n ↦ false ]) ≡ true → a ≡ b
  decided (yes p) h = p
  decided (no n) h = cc

  decided_back : (d : Dec (a ≡ b)) → a ≡ b → (elim d [ yes p ↦ true | no n ↦ false ]) ≡ true
  decided_back (yes p) h = refl
  decided_back (no n) h = absurd (n h)

  pub deep_equal_lem : (dec : Discrete A) → (deep_equal dec a b ≡ true) ↔ (a ≡ b)
  unfolding deep_equal
  deep_equal_lem dec = (decided (dec a b), decided_back (dec a b))

pub unchanged-accept : (b : Bool) → (unchanged b ≡ accept) ↔ (b ≡ true)
unchanged-accept true = (λ _. refl, λ _. refl)
unchanged-accept false = (λ h. absurd (done≢failed h), λ h. cc)
  where
    done≢failed : refuse "modifications to spec are not allowed" ≡ accept → ⊥
    done≢failed h = cc

-- A WXOneCluster's update is admitted exactly where the project, the availability zone, the
-- network, the SSH key and the reference to the credentials are those of the old object; the
-- control plane endpoint may change.
pub update_cluster-SameCluster :
    (old new : WxOneCluster) → (update_cluster old new ≡ accept) ↔ SameCluster new.spec old.spec
unfolding update_cluster
update_cluster-SameCluster old new = (only, enough)
  where
    same : WxOneClusterSpec
    same = with_endpoint_of old.spec new.spec

    only : update_cluster old new ≡ accept → SameCluster new.spec old.spec
    only h =
        let e : same ≡ old.spec =
          (deep_equal_lem _ _ WxOneClusterSpec-discrete).0 ((unchanged-accept _).0 h) in
        record {
          same_project = ap (λ (s : WxOneClusterSpec). s.project) e;
          same_zone = ap (λ (s : WxOneClusterSpec). s.availability_zone) e;
          same_network = ap (λ (s : WxOneClusterSpec). s.network) e;
          same_ssh_key = ap (λ (s : WxOneClusterSpec). s.ssh_key) e;
          same_credentials = ap (λ (s : WxOneClusterSpec). s.credentials_secret_ref) e;
        }

    enough : SameCluster new.spec old.spec → update_cluster old new ≡ accept
    enough h = (unchanged-accept _).1 (
        (deep_equal_lem _ _ WxOneClusterSpec-discrete).1 λ i. record {
          project = h.same_project i;
          availability_zone = h.same_zone i;
          network = h.same_network i;
          ssh_key = h.same_ssh_key i;
          control_plane_endpoint = old.spec.control_plane_endpoint;
          credentials_secret_ref = h.same_credentials i;
        })

-- A WXOneMachine's update is admitted exactly where the flavor and the image are those of the old
-- object; the provider id may change.
pub update_machine-SameMachine :
    (old new : WxOneMachine) → (update_machine old new ≡ accept) ↔ SameMachine new.spec old.spec
unfolding update_machine
update_machine-SameMachine old new = (only, enough)
  where
    same : WxOneMachineSpec
    same = with_provider_of old.spec new.spec

    only : update_machine old new ≡ accept → SameMachine new.spec old.spec
    only h =
        let e : same ≡ old.spec =
          (deep_equal_lem _ _ WxOneMachineSpec-discrete).0 ((unchanged-accept _).0 h) in
        record {
          same_flavor = ap (λ (s : WxOneMachineSpec). s.flavor) e;
          same_image = ap (λ (s : WxOneMachineSpec). s.image) e;
        }

    enough : SameMachine new.spec old.spec → update_machine old new ≡ accept
    enough h = (unchanged-accept _).1 (
        (deep_equal_lem _ _ WxOneMachineSpec-discrete).1 λ i. record {
          flavor = h.same_flavor i;
          image = h.same_image i;
          provider_id = old.spec.provider_id;
        })
