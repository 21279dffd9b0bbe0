-- ===== src/Tests/Manager.antt =====
-- main with and without a certificate, and the encoding of attachments, at concrete inputs.
use capi_wx_one.Base.{
  ℕ, zero, suc, ap, is_empty, true, false, none, some, [], ◌∷◌, String, ◌<>◌, ◌==◌, ◌≡◌, refl,
  if◌then◌else◌,
}
use capi_wx_one.Manager.Run.{
  Flags, default_flags, CertWatcher, TlsConfig, Host, main, manager_options,
}
use capi_wx_one.Manager.Start.{HasVariable, boot, onto, main-boot, main-starts}
use capi_wx_one.Manager.Tls.{configure, secured, manager_options-tls}
use capi_wx_one.Effects.{message, done}
use capi_wx_one.Graphql.Attachments.{
  instance_attachment, AttachableIp, JsonLib, unmarshal_floating_ip, marshal_floating_ip,
  AttachmentAnswer, unmarshal_answer, marshal_answer,
}
use capi_wx_one.Graphql.Roundtrip.{
  normal, unmarshal_floating_ip-marshal_floating_ip, unmarshal_answer-marshal_answer,
}

abbrev host : Host
host = record {
  getenv = λ name. if name == "ENABLE_WEBHOOKS" then "" else "set";
  join = λ dir name. dir <> "/" <> name;
  succeeds = λ t s. true;
}

abbrev flags : Flags
flags = record default_flags { webhook_cert_path = "/certs" }

main-boot_example :
    HasVariable host "WX_ONE_HOST"
    × HasVariable host "WX_ONE_USERNAME"
    × HasVariable host "WX_ONE_PASSWORD"
    × ((main host flags []).1 ≡ onto (boot host flags) [])
unfolding main is_empty
main-boot_example = main-boot host flags refl

main-starts_example : main host flags [] ≡ (some tt, onto (boot host flags) [])
unfolding is_empty
main-starts_example = main-starts host flags (λ t s. refl) refl refl refl

abbrev watcher : CertWatcher
watcher = record { cert_file = "/certs/tls.crt"; key_file = "/certs/tls.key" }

abbrev server : TlsConfig
server = record { next_protos = "h2" ∷ []; get_certificate = none }

manager_options-tls_example :
    (configure (manager_options host flags (some watcher) none).webhook_tls server
      ≡ secured false (some watcher) server)
    × (configure (manager_options host flags (some watcher) none).metrics_tls server
        ≡ secured false none server)
manager_options-tls_example = manager_options-tls host flags (some watcher) none server

-- A number is as long as its text.
unary : ℕ → String
unary zero = String.[]
unary (suc n) = String.◌∷◌ "1" (unary n)

size : String → ℕ
size String.[] = 0
size (String.◌∷◌ c s) = suc (size s)

size-unary : (n : ℕ) → some (size (unary n)) ≡ some n
unfolding size unary
size-unary zero = refl
size-unary (suc n) = ap (λ o. elim o [ none ↦ none | some k ↦ some (suc k) ]) (size-unary n)

abbrev json : JsonLib
json = record {
  parse_int = λ s. some (size s);
  print_int = unary;
  mismatch = λ v type. message ("cannot unmarshal into " <> type);
}

abbrev attached : AttachableIp
attached = record {
  ip = "192.0.2.7";
  attached_to = some (
      some (
        instance_attachment (record {
          typename = none;
          nat_to_vms_private_ip = some true;
          vms = some (some (record { id = "g1"; vm_id = "vm1" }) ∷ none ∷ []);
        })));
}

unmarshal_floating_ip-marshal_floating_ip_example :
    unmarshal_floating_ip json
      (record { ip = ""; attached_to = none })
      (marshal_floating_ip json attached)
    ≡ done (record attached { attached_to = normal attached.attached_to })
unmarshal_floating_ip-marshal_floating_ip_example =
    unmarshal_floating_ip-marshal_floating_ip json attached

abbrev answer : AttachmentAnswer json
answer = record {
  code = 200;
  err_text = none;
  msg = some (
      some (
        instance_attachment (record {
          typename = none;
          nat_to_vms_private_ip = none;
          vms = some (some (record { id = "g1"; priority = 1; vm_id = "vm1" }) ∷ []);
        })));
}

unmarshal_answer-marshal_answer_example :
    unmarshal_answer json
      (record { code = 0; err_text = none; msg = none })
      (marshal_answer json answer)
    ≡ done (record answer { msg = normal answer.msg })
unmarshal_answer-marshal_answer_example = unmarshal_answer-marshal_answer json size-unary answer
