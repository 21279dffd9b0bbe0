-- ===== src/Webhook/Templates.antt =====
-- Which updates of the two templates the handlers admit, field by field.
use capi_wx_one.Base.{◌≡◌, ◌↔◌, ap}
use capi_wx_one.Api.{
  WxOneClusterTemplate, WxOneMachineTemplate, WxOneClusterTemplateSpec, WxOneMachineTemplateSpec,
  WxOneClusterTemplateResource, WxOneMachineTemplateResource,
}
use capi_wx_one.Api.Equality.{WxOneClusterTemplateSpec-discrete, WxOneMachineTemplateSpec-discrete}
use capi_wx_one.Webhook.Validators.{
  accept, update_cluster_template, update_machine_template, with_endpoint_of, with_provider_of,
}
use capi_wx_one.Webhook.Immutable.{SameCluster, SameMachine, deep_equal_lem, unchanged-accept}

-- The two parts of a template's resource: its metadata, and its spec but for one field.
pub record SameClusterResource (a b : WxOneClusterTemplateResource) : Type 0 where
  pub same_meta : a.meta ≡ b.meta
  pub same_spec : SameCluster a.spec b.spec

pub record SameMachineResource (a b : WxOneMachineTemplateResource) : Type 0 where
  pub same_meta : a.meta ≡ b.meta
  pub same_spec : SameMachine a.spec b.spec

-- A WXOneClusterTemplate's update is admitted exactly where the labels and annotations of the
-- template are those of the old object, and its spec too, the control plane endpoint aside.
pub update_cluster_template-SameClusterResource :
    (old new : WxOneClusterTemplate)
    → (update_cluster_template old new ≡ accept)
      ↔ SameClusterResource new.spec.template old.spec.template
unfolding update_cluster_template
update_cluster_template-SameClusterResource old new = (only, enough)
  where
    same : WxOneClusterTemplateSpec
    same = record {
      template = record {
        meta = new.spec.template.meta;
        spec = with_endpoint_of old.spec.template.spec new.spec.template.spec;
      };
    }

    only :
        update_cluster_template old new ≡ accept
        → SameClusterResource new.spec.template old.spec.template
    only h =
        let e : same ≡ old.spec =
          (deep_equal_lem _ _ WxOneClusterTemplateSpec-discrete).0 ((unchanged-accept _).0 h) in
        record {
          same_meta = ap (λ (s : WxOneClusterTemplateSpec). s.template.meta) e;
          same_spec = record {
            same_project = ap (λ (s : WxOneClusterTemplateSpec). s.template.spec.project) e;
            same_zone = ap (λ (s : WxOneClusterTemplateSpec). s.template.spec.availability_zone) e;
            same_network = ap (λ (s : WxOneClusterTemplateSpec). s.template.spec.network) e;
            same_ssh_key = ap (λ (s : WxOneClusterTemplateSpec). s.template.spec.ssh_key) e;
            same_credentials =
                ap (λ (s : WxOneClusterTemplateSpec). s.template.spec.credentials_secret_ref) e;
          };
        }

    enough :
        SameClusterResource new.spec.template old.spec.template
        → update_cluster_template old new ≡ accept
    enough h = (unchanged-accept _).1 (
        (deep_equal_lem _ _ WxOneClusterTemplateSpec-discrete).1 λ i. record {
          template = record {
            meta = h.same_meta i;
            spec = record {
              project = h.same_spec.same_project i;
              availability_zone = h.same_spec.same_zone i;
              network = h.same_spec.same_network i;
              ssh_key = h.same_spec.same_ssh_key i;
              control_plane_endpoint = old.spec.template.spec.control_plane_endpoint;
              credentials_secret_ref = h.same_spec.same_credentials i;
            };
          };
        })

-- A WXOneMachineTemplate's update is admitted exactly where the labels and annotations of the
-- template, its flavor and its image are those of the old object; the provider id may change.
pub update_machine_template-SameMachineResource :
    (old new : WxOneMachineTemplate)
    → (update_machine_template old new ≡ accept)
      ↔ SameMachineResource new.spec.template old.spec.template
unfolding update_machine_template
update_machine_template-SameMachineResource old new = (only, enough)
  where
    same : WxOneMachineTemplateSpec
    same = record {
      template = record {
        meta = new.spec.template.meta;
        spec = with_provider_of old.spec.template.spec new.spec.template.spec;
      };
    }

    only :
        update_machine_template old new ≡ accept
        → SameMachineResource new.spec.template old.spec.template
    only h =
        let e : same ≡ old.spec =
          (deep_equal_lem _ _ WxOneMachineTemplateSpec-discrete).0 ((unchanged-accept _).0 h) in
        record {
          same_meta = ap (λ (s : WxOneMachineTemplateSpec). s.template.meta) e;
          same_spec = record {
            same_flavor = ap (λ (s : WxOneMachineTemplateSpec). s.template.spec.flavor) e;
            same_image = ap (λ (s : WxOneMachineTemplateSpec). s.template.spec.image) e;
          };
        }

    enough :
        SameMachineResource new.spec.template old.spec.template
        → update_machine_template old new ≡ accept
    enough h = (unchanged-accept _).1 (
        (deep_equal_lem _ _ WxOneMachineTemplateSpec-discrete).1 λ i. record {
          template = record {
            meta = h.same_meta i;
            spec = record {
              flavor = h.same_spec.same_flavor i;
              image = h.same_spec.same_image i;
              provider_id = old.spec.template.spec.provider_id;
            };
          };
        })
