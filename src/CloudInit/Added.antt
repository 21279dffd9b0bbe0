-- ===== src/CloudInit/Added.antt =====
-- What addPersistentLoAddressToCloudInit changes in the decoded configuration.
use capi_wx_one.Base.{
  String, Bool, true, false, ◌≡◌, ◌↔◌, refl, ◌==◌, eq_iff, arith, Option, none, some, if◌then◌else◌,
}
use capi_wx_one.Effects.{Json, Fields, Outcome, ok, err, panic, Reply, done, failed, wrap, message}
use capi_wx_one.Effects.Values.{arr, obj, end, field}
use capi_wx_one.Effects.Outside.{Codec}
use capi_wx_one.Clients.Login.{get_field}
use capi_wx_one.CloudInit.Text.{after_newline, trim_space}
use capi_wx_one.CloudInit.Convert.{
  strip_header, below_header, has_header, yaml_to_json, check_json, append_items, set_field,
  items_or_empty, two_files, three_commands, add_lo_service, write_into, cloud_init_yaml_to_json,
  of_reply, ◌>>=◌, add_persistent_lo_address_to_cloud_init,
}

get_field-set_field :
    (k j : String) (v : Json) (fs : Fields)
    → get_field j (set_field k v fs) ≡ (if k == j then v else get_field j fs)
unfolding get_field set_field
get_field-set_field k j v end = refl
get_field-set_field k j v (field i w fs) =
    ground (arith, eq_iff k j, eq_iff i k, eq_iff i j, get_field-set_field k j v fs)

-- In the new configuration the key write_files holds the old files and then the two new ones,
-- runcmd holds the old commands and then the three new ones, and every other key is as it was. An
-- old value that is no list counts as the empty list.
pub get_field-add_lo_service :
    (addr : String) (cfg : Fields) (key : String)
    → get_field key (add_lo_service addr cfg) ≡ (
        if "runcmd" == key
        then arr (append_items (items_or_empty (get_field "runcmd" cfg)) three_commands)
        else if "write_files" == key
        then arr (append_items (items_or_empty (get_field "write_files" cfg)) (two_files addr))
        else get_field key cfg)
unfolding add_lo_service
get_field-add_lo_service addr cfg key =
    rw
      (
        get_field-set_field "runcmd" key,
        get_field-set_field "write_files" "runcmd",
        get_field-set_field "write_files" key,
      )
      refl

module _ (codec : Codec) (addr : String) where
  from_decoded :
      (r : Reply (Option Fields))
      → (of_reply r >>= λ cfg.
          write_into addr cfg >>= λ cfg'. of_reply (codec.json_encode (obj cfg')))
        ≡ panic
      → r ≡ done none
  unfolding write_into
  from_decoded (done none) h = refl
  from_decoded (done (some cfg)) h =
      absurd (encoded (codec.json_encode (obj (add_lo_service addr cfg))) h)
    where
      encoded : {A : Type 0} (r : Reply A) → of_reply r ≡ panic → ⊥
      encoded (done j) h = cc
      encoded (failed e) h = cc
  from_decoded (failed e) h = absurd cc

  no_panic_then :
      {A B : Type 0} (r : Outcome A) (f : A → Outcome B)
      → (r ≡ panic → ⊥)
      → ((a : A) → f a ≡ panic → ⊥)
      → (r >>= f) ≡ panic
      → ⊥
  no_panic_then (ok a) f h k p = k a p
  no_panic_then (err e) f h k p = cc
  no_panic_then panic f h k p = h refl

  strip_header-no_panic : (b : String) → strip_header b ≡ panic → ⊥
  unfolding strip_header below_header
  strip_header-no_panic b = by_header (has_header b) (after_newline b)
    where
      by_header : (h : Bool) (o : Option String) → (if h then below_header o else ok b) ≡ panic → ⊥
      by_header true none p = cc
      by_header true (some rest) p = cc
      by_header false o p = cc

  yaml_to_json-no_panic : (b : String) → yaml_to_json codec b ≡ panic → ⊥
  unfolding yaml_to_json
  yaml_to_json-no_panic b = by_reply (codec.yaml_to_json b)
    where
      by_reply :
          (r : Reply String)
          → (elim r [ done j ↦ ok j | failed e ↦ err (wrap "convert YAML to JSON failed: " e) ])
            ≡ panic
          → ⊥
      by_reply (done j) p = cc
      by_reply (failed e) p = cc

  check_json-no_panic : (j : String) → check_json codec j ≡ panic → ⊥
  unfolding check_json
  check_json-no_panic j = by_test (codec.json_valid j)
    where
      by_test : (b : Bool) → (if b then ok j else err (message "produced invalid JSON")) ≡ panic → ⊥
      by_test true p = cc
      by_test false p = cc

  cloud_init_yaml_to_json-no_panic :
      (user_data : String) → cloud_init_yaml_to_json codec user_data ≡ panic → ⊥
  unfolding cloud_init_yaml_to_json
  cloud_init_yaml_to_json-no_panic user_data =
      no_panic_then _ _ (strip_header-no_panic (trim_space user_data))
        (λ b. no_panic_then _ _ (yaml_to_json-no_panic b) check_json-no_panic)

  from_converted :
      (r : Outcome String)
      → (r ≡ panic → ⊥)
      → (r >>= λ raw. of_reply (codec.json_decode raw) >>= λ cfg.
          write_into addr cfg >>= λ cfg'. of_reply (codec.json_encode (obj cfg')))
        ≡ panic
      → (raw : String) × (r ≡ ok raw) × (codec.json_decode raw ≡ done none)
  from_converted (ok raw) n h = (raw, refl, from_decoded (codec.json_decode raw) h)
  from_converted (err e) n h = absurd cc
  from_converted panic n h = absurd (n refl)

  -- The conversion panics exactly where the user data converts to a JSON text that decodes to the
  -- nil map, as `null` does.
  pub add_persistent_lo_address_to_cloud_init-panic :
      (user_data : String)
      → (add_persistent_lo_address_to_cloud_init codec user_data addr ≡ panic)
        ↔ (raw : String) × (cloud_init_yaml_to_json codec user_data ≡ ok raw)
          × (codec.json_decode raw ≡ done none)
  unfolding add_persistent_lo_address_to_cloud_init
  add_persistent_lo_address_to_cloud_init-panic user_data = (
    from_converted (cloud_init_yaml_to_json codec user_data)
        (cloud_init_yaml_to_json-no_panic user_data),
    λ (raw, converted, is_null). rw (converted, is_null) refl,
  )
