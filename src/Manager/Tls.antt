-- ===== src/Manager/Tls.antt =====
-- The TLS configurations of the two servers.
use capi_wx_one.Base.{
  Bool, true, false, Option, none, some, List, [], ◌∷◌, ◌≡◌, refl, if◌then◌else◌,
}
use capi_wx_one.Manager.Run.{
  Flags, CertWatcher, TlsConfig, TlsOption, Host, with_certificate, disable_http2, manager_options,
}

-- A server applies its options in their order.
abbrev pub configure : List TlsOption → TlsConfig → TlsConfig
configure [] c = c
configure (option ∷ options) c = configure options (option c)

-- HTTP/1.1 alone unless HTTP/2 is enabled, and the watcher's certificate where there is one.
abbrev pub secured : Bool → Option CertWatcher → TlsConfig → TlsConfig
secured http2 watcher c = record {
  next_protos = if http2 then c.next_protos else "http/1.1" ∷ [];
  get_certificate = elim watcher [ none ↦ c.get_certificate | some w ↦ some w ];
}

with_certificate_lem :
    (host : Host) (http2 : Bool) (w : Option CertWatcher) (c : TlsConfig)
    → configure (with_certificate host w (if http2 then [] else disable_http2 ∷ [])) c
      ≡ secured http2 w c
with_certificate_lem host true none c = refl
with_certificate_lem host true (some w) c = refl
with_certificate_lem host false none c = refl
with_certificate_lem host false (some w) c = refl

-- With the options that main gives them, the webhook server and the metrics server each have the
-- certificate of their own watcher, or the one that they had where they have no watcher, and offer
-- HTTP/1.1 alone unless the flag enables HTTP/2, whatever watcher the other one has.
pub manager_options-tls :
    (host : Host) (flags : Flags) (webhook metrics : Option CertWatcher) (c : TlsConfig)
    → (configure (manager_options host flags webhook metrics).webhook_tls c
        ≡ secured flags.enable_http2 webhook c)
      × (configure (manager_options host flags webhook metrics).metrics_tls c
          ≡ secured flags.enable_http2 metrics c)
unfolding manager_options
manager_options-tls host flags webhook metrics c = (
  with_certificate_lem host flags.enable_http2 webhook c,
  with_certificate_lem host flags.enable_http2 metrics c,
)
