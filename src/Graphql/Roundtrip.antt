-- ===== src/Graphql/Roundtrip.antt =====
-- What is encoded and decoded again.
use capi_wx_one.Base.{ℕ, Bool, Option, none, some, List, [], ◌∷◌, String, ◌≡◌, refl, ap, Slice}
use capi_wx_one.Effects.Errors.{Reply, done}
use capi_wx_one.Effects.Values.{Json, bool, num, str}
use capi_wx_one.Graphql.Decoding.{
  names, decode_text, decode_text_pointer, decode_bool_pointer, decode_items, decode_slice,
  decode_pointer, decode_fields, decode_struct, encode_pointer, encode_items, encode_slice,
}
use capi_wx_one.Graphql.Attachments.{
  AttachedVm, AttachmentVm, Attachment, instance_attachment, load_balancer, AttachableIp, JsonLib,
  decode_int, set_attached_vm, set_attachment_vm, decode_attached_vm, decode_attachment_vm,
  encode_attached_vm, encode_attachment_vm, set_type_name, set_load_balancer, set_instance,
  unmarshal_attachment, marshal_attachment, set_attached_to, unmarshal_floating_ip,
  marshal_floating_ip, AttachmentAnswer, set_msg, unmarshal_answer, with_attached, with_msg,
  attached_type, message_type, marshal_answer,
}

-- What an interface value is after the round trip: the type's name is written into it.
abbrev pub named : {V : Type 0} → Attachment V → Attachment V
named (instance_attachment a) =
    instance_attachment (record a { typename = some "FloatingIPInstanceAttachment" })
named (load_balancer a) = load_balancer (record { typename = some "LoadBalancerFrontendIP" })

-- A pointer to an interface that is nil becomes a nil pointer.
abbrev pub normal : {V : Type 0} → Option (Option (Attachment V)) → Option (Option (Attachment V))
normal none = none
normal (some none) = none
normal (some (some a)) = some (some (named a))

module _ (lib : JsonLib) where
  module _ {A : Type 0} (decode : Json → Reply A) (encode : A → Json)
      (element : (a : A) → decode (encode a) ≡ done a) where
    decode_items-encode_items :
        (l : List A) → decode_items lib.mismatch decode (encode_items encode l) ≡ done l
    unfolding decode_items encode_items
    decode_items-encode_items [] = refl
    decode_items-encode_items (a ∷ l) = rw (element a, decode_items-encode_items l)

    decode_slice-encode_slice :
        (l : Slice A) → decode_slice lib.mismatch decode (encode_slice encode l) ≡ done l
    unfolding decode_slice encode_slice
    decode_slice-encode_slice none = refl
    decode_slice-encode_slice (some l) = rw (decode_items-encode_items l)

  attached_vm-pointer :
      (v : Option AttachedVm)
      → decode_pointer lib.mismatch
          (decode_attached_vm lib)
          (encode_pointer (encode_attached_vm lib) v)
        ≡ done v
  unfolding decode_pointer decode_attached_vm decode_struct set_attached_vm names decode_text
  attached_vm-pointer none = refl
  attached_vm-pointer (some v) = refl

  decode_int-print :
      ((n : ℕ) → lib.parse_int (lib.print_int n) ≡ some n)
      → (old n : ℕ) → decode_int lib old (num (lib.print_int n)) ≡ done n
  unfolding decode_int
  decode_int-print law old n = rw (law n, decode_int)

  attachment_vm-pointer :
      ((n : ℕ) → lib.parse_int (lib.print_int n) ≡ some n)
      → (v : Option AttachmentVm)
      → decode_pointer lib.mismatch
          (decode_attachment_vm lib)
          (encode_pointer (encode_attachment_vm lib) v)
        ≡ done v
  unfolding decode_pointer decode_attachment_vm decode_struct set_attachment_vm names decode_text
  attachment_vm-pointer law none = refl
  attachment_vm-pointer law (some v) = rw (decode_int-print law 0 v.priority)

  module _ {V : Type 0} (decode : Json → Reply V) (encode : V → Json)
      (element : (v : Option V)
        → decode_pointer lib.mismatch decode (encode_pointer encode v) ≡ done v) where
    bool-pointer :
        (b : Option Bool) → decode_bool_pointer lib.mismatch (encode_pointer bool b) ≡ done b
    unfolding decode_bool_pointer
    bool-pointer none = refl
    bool-pointer (some b) = refl

    unmarshal-marshal :
        (go_type : String) (a : Attachment V)
        → unmarshal_attachment lib decode go_type (marshal_attachment lib encode (some a))
          ≡ done (some (named a))
    unfolding unmarshal_attachment marshal_attachment decode_struct decode_fields set_type_name
        set_instance set_load_balancer names decode_text decode_text_pointer
    unmarshal-marshal go_type (instance_attachment a) = rw (
      bool-pointer a.nat_to_vms_private_ip,
      decode_slice-encode_slice (decode_pointer lib.mismatch decode) (encode_pointer encode) element
          a.vms,
    )
    unmarshal-marshal go_type (load_balancer a) = refl

  text-pointer :
      (t : Option String) → decode_text_pointer lib.mismatch (encode_pointer str t) ≡ done t
  unfolding decode_text_pointer
  text-pointer none = refl
  text-pointer (some t) = refl

  -- The raw message of an interface that is there is not null.
  set_attached_to-marshal :
      (v : AttachableIp) (a : Attachment AttachedVm)
      → set_attached_to lib v (some (marshal_attachment lib (encode_attached_vm lib) (some a)))
        ≡ done (record v { attached_to = some (some (named a)) })
  unfolding set_attached_to marshal_attachment
  set_attached_to-marshal v (instance_attachment a) = ap (with_attached lib v) (
      unmarshal-marshal (decode_attached_vm lib) (encode_attached_vm lib) attached_vm-pointer
        (attached_type lib) (instance_attachment a))
  set_attached_to-marshal v (load_balancer a) = ap (with_attached lib v) (
      unmarshal-marshal (decode_attached_vm lib) (encode_attached_vm lib) attached_vm-pointer
        (attached_type lib) (load_balancer a))

  set_msg-marshal :
      ((n : ℕ) → lib.parse_int (lib.print_int n) ≡ some n)
      → (v : AttachmentAnswer lib) (a : Attachment AttachmentVm)
      → set_msg lib v (some (marshal_attachment lib (encode_attachment_vm lib) (some a)))
        ≡ done (record v { msg = some (some (named a)) })
  unfolding set_msg marshal_attachment
  set_msg-marshal law v (instance_attachment a) = ap (with_msg lib v) (
      unmarshal-marshal (decode_attachment_vm lib) (encode_attachment_vm lib)
        (attachment_vm-pointer law) (message_type lib) (instance_attachment a))
  set_msg-marshal law v (load_balancer a) = ap (with_msg lib v) (
      unmarshal-marshal (decode_attachment_vm lib) (encode_attachment_vm lib)
        (attachment_vm-pointer law) (message_type lib) (load_balancer a))

  attached-marshal :
      (ip : String) (a : Option (Option (Attachment AttachedVm)))
      → unmarshal_floating_ip lib
          (record { ip = ""; attached_to = none })
          (marshal_floating_ip lib (record { ip = ip; attached_to = a }))
        ≡ done (record { ip = ip; attached_to = normal a })
  unfolding unmarshal_floating_ip marshal_floating_ip names decode_text
  attached-marshal ip none = refl
  attached-marshal ip (some none) = refl
  attached-marshal ip (some (some a)) =
      set_attached_to-marshal (record { ip = ip; attached_to = none }) a

  msg-marshal :
      ((n : ℕ) → lib.parse_int (lib.print_int n) ≡ some n)
      → (code : ℕ) (err_text : Option String) (a : Option (Option (Attachment AttachmentVm)))
      → unmarshal_answer lib
          (record { code = 0; err_text = none; msg = none })
          (marshal_answer lib (record { code = code; err_text = err_text; msg = a }))
        ≡ done (record { code = code; err_text = err_text; msg = normal a })
  unfolding unmarshal_answer marshal_answer names
  msg-marshal law code err_text none = rw (decode_int-print law 0 code, text-pointer err_text)
  msg-marshal law code err_text (some none) =
      rw (decode_int-print law 0 code, text-pointer err_text)
  msg-marshal law code err_text (some (some a)) =
      rw (decode_int-print law 0 code, text-pointer err_text)
        (set_msg-marshal law (record { code = code; err_text = err_text; msg = none }) a)

-- A floating IP that MarshalJSON of W1FloatingIP encodes, UnmarshalJSON decodes, into a struct of
-- zero values, to the same address and attachment, with the name of the attachment's GraphQL type
-- in its Typename, whatever stood there; a pointer to a nil interface becomes nil.
pub unmarshal_floating_ip-marshal_floating_ip :
    (lib : JsonLib) (v : AttachableIp)
    → unmarshal_floating_ip lib (record { ip = ""; attached_to = none }) (marshal_floating_ip lib v)
      ≡ done (record v { attached_to = normal v.attached_to })
unmarshal_floating_ip-marshal_floating_ip lib v = attached-marshal lib v.ip v.attached_to

-- The same of FloatingIPAttachmentResponse, its code, its error text and its message, where the text
-- of a number is read as this number.
pub unmarshal_answer-marshal_answer :
    (lib : JsonLib) (law : (n : ℕ) → lib.parse_int (lib.print_int n) ≡ some n)
    (v : AttachmentAnswer lib)
    → unmarshal_answer lib (record { code = 0; err_text = none; msg = none }) (marshal_answer lib v)
      ≡ done (record v { msg = normal v.msg })
unmarshal_answer-marshal_answer lib law v = msg-marshal lib law v.code v.err_text v.msg
