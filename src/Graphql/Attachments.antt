-- ===== src/Graphql/Attachments.antt =====
-- getFloatingIP and getFloatingIPAttachment: their answers hold a GraphQL interface, which is
-- decoded by its __typename and encoded with it. A raw message is the value that its bytes stand
-- for; it is empty where the key is missing.
use capi_wx_one.Base.{ℕ, Bool, Option, none, some, String, ◌<>◌, ◌==◌, if◌then◌else◌, Slice}
use capi_wx_one.Effects.Errors.{Error, message, wrap, Reply, done, failed}
use capi_wx_one.Effects.Values.{Json, null, bool, num, str, obj, end, field}
use capi_wx_one.Graphql.Responses.{Payload}
use capi_wx_one.Graphql.Decoding.{
  names, and_reply, map_reply, decode_text, decode_text_pointer, decode_bool_pointer, decode_slice,
  decode_pointer, decode_struct, encode_pointer, encode_slice,
}

pub record AttachedVm : Type 0 where
  pub id : String
  pub vm_id : String

pub record AttachmentVm : Type 0 where
  pub id : String
  pub priority : ℕ
  pub vm_id : String

pub record InstanceAttachment (V : Type 0) : Type 0 where
  pub typename : Option String
  pub nat_to_vms_private_ip : Option Bool
  pub vms : Slice (Option V)

pub record LoadBalancerFrontendIp : Type 0 where
  pub typename : Option String

-- The interface FloatingIPAttachment, where it is not nil.
pub data Attachment (V : Type 0) : Type 0 where
  instance_attachment : InstanceAttachment V → Attachment V
  load_balancer : LoadBalancerFrontendIp → Attachment V

-- `attached_to` is a pointer to an interface value, which may be nil itself.
pub record AttachableIp : Type 0 where
  pub ip : String
  pub attached_to : Option (Option (Attachment AttachedVm))

-- What encoding/json does with numbers, and the text of its errors.
pub record JsonLib : Type 0 where
  pub parse_int : String → Option ℕ
  pub print_int : ℕ → String
  pub mismatch : Json → String → Error

module _ (lib : JsonLib) where
  unfoldable pub decode_int : ℕ → Json → Reply ℕ
  decode_int old null = done old
  decode_int old (num s) = elim (lib.parse_int s) [
    | none ↦ failed (lib.mismatch (num s) "int")
    | some n ↦ done n
  ]
  decode_int old v = failed (lib.mismatch v "int")

  unfoldable pub set_attached_vm : String → Json → AttachedVm → Reply AttachedVm
  set_attached_vm k v s =
      if names k "id"
      then map_reply (λ t. record s { id = t }) (decode_text lib.mismatch s.id v)
      else if names k "vmId"
      then map_reply (λ t. record s { vm_id = t }) (decode_text lib.mismatch s.vm_id v)
      else done s

  unfoldable pub set_attachment_vm : String → Json → AttachmentVm → Reply AttachmentVm
  unfolding decode_int
  set_attachment_vm k v s =
      if names k "id"
      then map_reply (λ t. record s { id = t }) (decode_text lib.mismatch s.id v)
      else if names k "priority"
      then map_reply (λ n. record s { priority = n }) (decode_int s.priority v)
      else if names k "vmId"
      then map_reply (λ t. record s { vm_id = t }) (decode_text lib.mismatch s.vm_id v)
      else done s

  unfoldable pub decode_attached_vm : Json → Reply AttachedVm
  unfolding decode_struct set_attached_vm
  decode_attached_vm = decode_struct lib.mismatch set_attached_vm (record { id = ""; vm_id = "" })

  unfoldable pub decode_attachment_vm : Json → Reply AttachmentVm
  unfolding decode_struct set_attachment_vm
  decode_attachment_vm =
      decode_struct lib.mismatch set_attachment_vm (record { id = ""; priority = 0; vm_id = "" })

  abbrev pub encode_attached_vm : AttachedVm → Json
  encode_attached_vm v = obj (field "id" (str v.id) (field "vmId" (str v.vm_id) end))

  abbrev pub encode_attachment_vm : AttachmentVm → Json
  encode_attachment_vm v = obj (
      field "id" (str v.id)
        (field "priority" (num (lib.print_int v.priority)) (field "vmId" (str v.vm_id) end)))

  unfoldable pub set_type_name : String → Json → String → Reply String
  set_type_name k v s = if names k "__typename" then decode_text lib.mismatch s v else done s

  unfoldable pub set_load_balancer :
      String → Json → LoadBalancerFrontendIp → Reply LoadBalancerFrontendIp
  set_load_balancer k v s =
      if names k "__typename"
      then map_reply (λ t. record { typename = t }) (decode_text_pointer lib.mismatch v)
      else done s

  module _ {V : Type 0} (decode : Json → Reply V) where
    unfoldable pub set_instance :
        String → Json → InstanceAttachment V → Reply (InstanceAttachment V)
    set_instance k v s =
        if names k "__typename"
        then map_reply (λ t. record s { typename = t }) (decode_text_pointer lib.mismatch v)
        else if names k "natToVmsPrivateIp"
        then map_reply (λ b. record s { nat_to_vms_private_ip = b })
            (decode_bool_pointer lib.mismatch v)
        else if names k "vms"
        then map_reply (λ l. record s { vms = l })
            (decode_slice lib.mismatch (decode_pointer lib.mismatch decode) v)
        else done s

    abbrev pub by_type_name : String → String → Json → Reply (Option (Attachment V))
    by_type_name go_type name b =
        if name == "FloatingIPInstanceAttachment"
        then map_reply (λ a. some (instance_attachment a))
            (decode_struct lib.mismatch set_instance
              (record { typename = none; nat_to_vms_private_ip = none; vms = none }) b)
        else if name == "LoadBalancerFrontendIP"
        then map_reply (λ a. some (load_balancer a))
            (decode_struct lib.mismatch set_load_balancer (record { typename = none }) b)
        else if name == ""
        then failed (message "response was missing FloatingIPAttachment.__typename")
        else failed (message ("unexpected concrete type for " <> go_type <> ": \"" <> name <> "\""))

    -- __unmarshal…FloatingIPAttachment, into an interface that is nil; `go_type` is its name.
    unfoldable pub unmarshal_attachment : String → Json → Reply (Option (Attachment V))
    unfolding decode_struct set_type_name set_instance set_load_balancer
    unmarshal_attachment go_type null = done none
    unmarshal_attachment go_type b =
        and_reply (decode_struct lib.mismatch set_type_name "" b)
          (λ name. by_type_name go_type name b)

  module _ {V : Type 0} (encode : V → Json) where
    -- __marshal…FloatingIPAttachment: the outer __typename hides the one of the struct.
    unfoldable pub marshal_attachment : Option (Attachment V) → Json
    marshal_attachment none = null
    marshal_attachment (some (instance_attachment a)) = obj (
        field "__typename" (str "FloatingIPInstanceAttachment") (
          field "natToVmsPrivateIp" (encode_pointer bool a.nat_to_vms_private_ip)
            (field "vms" (encode_slice (encode_pointer encode) a.vms) end)))
    marshal_attachment (some (load_balancer a)) =
        obj (field "__typename" (str "LoadBalancerFrontendIP") end)

  -- UnmarshalJSON of W1FloatingIP. The first pass decodes the plain field, and keeps the raw message.
  unfoldable pub set_ip_pass : String → Json → String × Option Json → Reply (String × Option Json)
  set_ip_pass k v (ip, raw) =
      if names k "ip"
      then map_reply (λ t. (t, raw)) (decode_text lib.mismatch ip v)
      else if names k "attachedTo"
      then done (ip, some v)
      else done (ip, raw)

  abbrev pub attached_type : String
  attached_type =
      "getFloatingIPGetFloatingIPFloatingIPResponseMsgW1FloatingIPAttachedToFloatingIPAttachment"

  abbrev pub with_attached :
      AttachableIp → Reply (Option (Attachment AttachedVm)) → Reply AttachableIp
  with_attached v (failed e) = failed (
      wrap
        "unable to unmarshal getFloatingIPGetFloatingIPFloatingIPResponseMsgW1FloatingIP.AttachedTo: "
        e)
  with_attached v (done a) = done (record v { attached_to = some a })

  -- The second pass: an empty message and `null` leave the pointer as it is.
  unfoldable pub set_attached_to : AttachableIp → Option Json → Reply AttachableIp
  unfolding unmarshal_attachment decode_attached_vm
  set_attached_to v none = done v
  set_attached_to v (some null) = done v
  set_attached_to v (some src) =
      with_attached v (unmarshal_attachment decode_attached_vm attached_type src)

  unfoldable pub unmarshal_floating_ip : AttachableIp → Json → Reply AttachableIp
  unfolding decode_struct set_ip_pass set_attached_to
  unmarshal_floating_ip v null = done v
  unmarshal_floating_ip v b =
      and_reply (decode_struct lib.mismatch set_ip_pass (v.ip, none) b)
        (λ (ip, raw). set_attached_to (record v { ip = ip }) raw)

  -- A nil raw message is encoded as null.
  unfoldable pub marshal_floating_ip : AttachableIp → Json
  unfolding marshal_attachment
  marshal_floating_ip v = obj (
      field "ip" (str v.ip) (
        field "attachedTo" (encode_pointer (marshal_attachment encode_attached_vm) v.attached_to)
          end))

  -- The same of FloatingIPAttachmentResponse.
  abbrev pub AttachmentAnswer : Type 0
  AttachmentAnswer = Payload (Option (Option (Attachment AttachmentVm)))

  abbrev pub Pass : Type 0
  Pass = ℕ × Option String × Option Json

  unfoldable pub set_answer_pass : String → Json → Pass → Reply Pass
  unfolding decode_int
  set_answer_pass k v (code, err_text, raw) =
      if names k "code"
      then map_reply (λ n. (n, err_text, raw)) (decode_int code v)
      else if names k "err"
      then map_reply (λ t. (code, t, raw)) (decode_text_pointer lib.mismatch v)
      else if names k "msg"
      then done (code, err_text, some v)
      else done (code, err_text, raw)

  abbrev pub message_type : String
  message_type =
      "getFloatingIPAttachmentGetFloatingIPAttachmentFloatingIPAttachmentResponseMsgFloatingIPAttachment"

  abbrev pub with_msg :
      AttachmentAnswer → Reply (Option (Attachment AttachmentVm)) → Reply AttachmentAnswer
  with_msg v (failed e) = failed (
      wrap
        "unable to unmarshal getFloatingIPAttachmentGetFloatingIPAttachmentFloatingIPAttachmentResponse.Msg: "
        e)
  with_msg v (done a) = done (record v { msg = some a })

  unfoldable pub set_msg : AttachmentAnswer → Option Json → Reply AttachmentAnswer
  unfolding unmarshal_attachment decode_attachment_vm
  set_msg v none = done v
  set_msg v (some null) = done v
  set_msg v (some src) = with_msg v (unmarshal_attachment decode_attachment_vm message_type src)

  unfoldable pub unmarshal_answer : AttachmentAnswer → Json → Reply AttachmentAnswer
  unfolding decode_struct set_answer_pass set_msg
  unmarshal_answer v null = done v
  unmarshal_answer v b =
      and_reply (decode_struct lib.mismatch set_answer_pass (v.code, v.err_text, none) b)
        (λ (code, err_text, raw). set_msg (record v { code = code; err_text = err_text }) raw)

  unfoldable pub marshal_answer : AttachmentAnswer → Json
  unfolding marshal_attachment
  marshal_answer v = obj (
      field "code" (num (lib.print_int v.code)) (
        field "err" (encode_pointer str v.err_text)
          (field "msg" (encode_pointer (marshal_attachment encode_attachment_vm) v.msg) end)))
