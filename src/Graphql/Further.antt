-- ===== src/Graphql/Further.antt =====
-- The functions of internal/controller/generated.go that no controller calls.
use capi_wx_one.Base.{String, Bool, Option}
use capi_wx_one.Graphql.Inputs.{
  GetFloatingIpInput, GetFloatingIpAttachmentInput, GetKeyInput, GetNetworkInput, UpdateKeyInput,
  UpdateNetworkInput,
}
use capi_wx_one.Graphql.Responses.{Answer, FoundKey, FoundNetwork, UpdatedKey, UpdatedNetwork}
use capi_wx_one.Graphql.Attachments.{AttachableIp, Attachment, AttachmentVm}
use capi_wx_one.Effects.{Env, Exec, ◌>>=◌, call, deref, Event, Question}
use capi_wx_one.Effects.Outside.{GraphqlClient}

module _ (env : Env) (client : Option GraphqlClient) where
  unfoldable pub get_floating_ip : String → String → Exec (Answer (Option AttachableIp))
  get_floating_ip id project_id = do
    c ← deref client
    let input : GetFloatingIpInput = record { id = id; project_id = project_id }
    call (λ t. env.api.get_floating_ip t c input) (λ _. Event.asked (Question.floating_ip input))

  unfoldable pub get_floating_ip_attachment :
      String → String → Exec (Answer (Option (Option (Attachment AttachmentVm))))
  get_floating_ip_attachment id project_id = do
    c ← deref client
    let input : GetFloatingIpAttachmentInput = record { id = id; project_id = project_id }
    call (λ t. env.api.get_floating_ip_attachment t c input)
        (λ _. Event.asked (Question.floating_ip_attachment input))

  unfoldable pub get_key :
      Option String → Option String → Option String → Option Bool → Exec (Answer (Option FoundKey))
  get_key id name project_id project_wide = do
    c ← deref client
    let input : GetKeyInput = record {
      id = id;
      name = name;
      project_id = project_id;
      project_wide = project_wide;
    }
    call (λ t. env.api.get_key t c input) (λ _. Event.asked (Question.key input))

  unfoldable pub get_network : String → String → Exec (Answer (Option FoundNetwork))
  get_network id project_id = do
    c ← deref client
    let input : GetNetworkInput = record { id = id; project_id = project_id }
    call (λ t. env.api.get_network t c input) (λ _. Event.asked (Question.network input))

  unfoldable pub update_key : String → Option String → String → Exec (Answer (Option UpdatedKey))
  update_key id project_id name = do
    c ← deref client
    let input : UpdateKeyInput = record { id = id; project_id = project_id; name = name }
    call (λ t. env.api.update_key t c input) (Event.updated_key input)

  unfoldable pub update_network :
      String → Option String → String → Exec (Answer (Option UpdatedNetwork))
  update_network id project_id name = do
    c ← deref client
    let input : UpdateNetworkInput = record { id = id; project_id = project_id; name = name }
    call (λ t. env.api.update_network t c input) (Event.updated_network input)
