-- ===== src/CloudInit/Convert.antt =====
-- The two conversions. A conversion makes no call; it returns, fails, or panics.
use text.Mathlib.Text.{starts_with}
use capi_wx_one.Base.{String, ◌<>◌, Bool, ◌||◌, Option, none, some, ◌==◌, if◌then◌else◌}
use capi_wx_one.Effects.{
  message, wrap, Reply, done, failed, Outcome, ok, err, panic, Json, Items, Fields,
}
use capi_wx_one.Effects.Values.{str, arr, obj, nil, cons, end, field}
use capi_wx_one.Effects.Outside.{Codec}
use capi_wx_one.Clients.Login.{get_field}
use capi_wx_one.CloudInit.Text.{trim_space, after_newline}

infixl 5 ◌>>=◌
abbrev pub ◌>>=◌ : {A B : Type 0} → Outcome A → (A → Outcome B) → Outcome B
ok a >>= f = f a
err e >>= f = err e
panic >>= f = panic

abbrev pub of_reply : {A : Type 0} → Reply A → Outcome A
of_reply (done a) = ok a
of_reply (failed e) = err e

unfoldable pub has_header : String → Bool
has_header b =
    starts_with b "#cloud-config"
    || starts_with b "#cloud-boothook"
    || starts_with b "#cloud-config-archive"

unfoldable pub below_header : Option String → Outcome String
below_header none = err (message "userdata only contained cloud-init header")
below_header (some rest) = ok (trim_space rest)

unfoldable pub strip_header : String → Outcome String
unfolding has_header below_header
strip_header b = if has_header b then below_header (after_newline b) else ok b

-- `append(list, …)` on []interface{}
unfoldable pub append_items : Items → Items → Items
append_items nil ys = ys
append_items (cons x xs) ys = cons x (append_items xs ys)

-- `m[k] = v` on a map
unfoldable pub set_field : String → Json → Fields → Fields
set_field k v end = field k v end
set_field k v (field j w fs) = if j == k then field k v fs else field j w (set_field k v fs)

-- `v.([]interface{})`, and the empty list where it is no list
unfoldable pub items_or_empty : Json → Items
items_or_empty (arr xs) = xs
items_or_empty _ = nil

abbrev pub script_content : String → String
script_content addr =
    "#!/bin/sh\nip addr show dev lo | grep -q '" <> addr <> "' || ip addr add " <> addr
    <> "/32 dev lo\n"

abbrev pub unit_content : String
unit_content =
    "[Unit]\nDescription=Add persistent loopback address\nAfter=network-pre.target\n"
    <> "Wants=network-pre.target\nBefore=kubelet.service\n\n[Service]\nType=oneshot\n"
    <> "ExecStart=/usr/local/bin/configure-lo.sh\nRemainAfterExit=yes\n\n[Install]\n"
    <> "WantedBy=multi-user.target\n"

abbrev pub file_entry : String → String → String → Json
file_entry path permissions content = obj (
    field "path" (str path) (
      field "permissions" (str permissions)
        (field "owner" (str "root:root") (field "content" (str content) end))))

abbrev pub two_files : String → Items
two_files addr =
    cons (file_entry "/usr/local/bin/configure-lo.sh" "0755" (script_content addr))
      (cons (file_entry "/etc/systemd/system/configure-lo.service" "0644" unit_content) nil)

abbrev pub three_commands : Items
three_commands = cons (arr (cons (str "systemctl") (cons (str "daemon-reload") nil))) (
    cons
      (arr (cons (str "systemctl") (cons (str "enable") (cons (str "configure-lo.service") nil))))
      (cons
        (arr (cons (str "systemctl") (cons (str "start") (cons (str "configure-lo.service") nil))))
        nil))

-- The two writes into the decoded configuration.
unfoldable pub add_lo_service : String → Fields → Fields
unfolding append_items set_field items_or_empty get_field
add_lo_service addr cfg =
    let cfg' =
      set_field "write_files"
        (arr (append_items (items_or_empty (get_field "write_files" cfg)) (two_files addr))) cfg in
    set_field "runcmd"
      (arr (append_items (items_or_empty (get_field "runcmd" cfg')) three_commands)) cfg'

-- A write into a nil map panics, and `null` decodes to the nil map.
unfoldable pub write_into : String → Option Fields → Outcome Fields
write_into addr none = panic
write_into addr (some cfg) = ok (add_lo_service addr cfg)

module _ (codec : Codec) where
  unfoldable pub yaml_to_json : String → Outcome String
  yaml_to_json b = elim (codec.yaml_to_json b) [
    | done j ↦ ok j
    | failed e ↦ err (wrap "convert YAML to JSON failed: " e)
  ]

  unfoldable pub check_json : String → Outcome String
  check_json j = if codec.json_valid j then ok j else err (message "produced invalid JSON")

  unfoldable pub cloud_init_yaml_to_json : String → Outcome String
  unfolding strip_header yaml_to_json check_json trim_space
  cloud_init_yaml_to_json user_data = do
    b ← strip_header (trim_space user_data)
    j ← yaml_to_json b
    check_json j

  unfoldable pub add_persistent_lo_address_to_cloud_init : String → String → Outcome String
  unfolding write_into
  add_persistent_lo_address_to_cloud_init user_data addr = do
    raw ← cloud_init_yaml_to_json user_data
    cfg ← of_reply (codec.json_decode raw)
    cfg' ← write_into addr cfg
    of_reply (codec.json_encode (obj cfg'))
