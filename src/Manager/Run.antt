-- ===== src/Manager/Run.antt =====
-- The calls of main, in their order. A call that fails ends the program with os.Exit(1).
use capi_wx_one.Base.{
  Bool, true, false, Option, none, some, List, [], ◌∷◌, ◌++◌, String, ◌==◌, is_empty, not,
  if◌then◌else◌,
}

-- What the flags give.
pub record Flags : Type 0 where
  pub metrics_addr : String
  pub probe_addr : String
  pub leader_elect : Bool
  pub metrics_secure : Bool
  pub webhook_cert_path : String
  pub webhook_cert_name : String
  pub webhook_cert_key : String
  pub metrics_cert_path : String
  pub metrics_cert_name : String
  pub metrics_cert_key : String
  pub enable_http2 : Bool

abbrev pub default_flags : Flags
default_flags = record {
  metrics_addr = "0";
  probe_addr = ":8081";
  leader_elect = false;
  metrics_secure = true;
  webhook_cert_path = "";
  webhook_cert_name = "tls.crt";
  webhook_cert_key = "tls.key";
  metrics_cert_path = "";
  metrics_cert_name = "tls.crt";
  metrics_cert_key = "tls.key";
  enable_http2 = false;
}

-- certwatcher.CertWatcher: the two files that it watches
pub record CertWatcher : Type 0 where
  pub cert_file : String
  pub key_file : String

-- tls.Config: the two fields that the options set
pub record TlsConfig : Type 0 where
  pub next_protos : List String
  pub get_certificate : Option CertWatcher

-- func(*tls.Config)
abbrev pub TlsOption : Type 0
TlsOption = TlsConfig → TlsConfig

abbrev pub disable_http2 : TlsOption
disable_http2 c = record c { next_protos = "http/1.1" ∷ [] }

abbrev pub certificate_of : CertWatcher → TlsOption
certificate_of w c = record c { get_certificate = some w }

-- The options of the manager and of its two servers.
pub record ManagerOptions : Type 0 where
  pub metrics_bind_address : String
  pub metrics_secure_serving : Bool
  pub metrics_authorized : Bool
  pub metrics_tls : List TlsOption
  pub webhook_tls : List TlsOption
  pub health_probe_bind_address : String
  pub leader_election : Bool
  pub leader_election_id : String

-- A call that was made and did not fail. `started` is the call of mgr.Start, which ends only with
-- the manager.
pub data Step : Type 0 where
  watched : CertWatcher → Step
  got_config : Step
  made_manager : ManagerOptions → Step
  handled_signals : Step
  set_up_controller : String → Step
  set_up_webhook : String → Step
  added_watcher : CertWatcher → Step
  added_healthz : Step
  added_readyz : Step
  started : Step

-- The calls of the packages that main uses: which of them succeed, after the calls so far.
pub record Host : Type 0 where
  pub getenv : String → String
  pub join : String → String → String
  pub succeeds : List Step → Step → Bool

-- The calls so far, the last one first; `none` is os.Exit(1).
abbrev pub Run : Type 0 → Type 0
Run A = List Step → Option A × List Step

abbrev pub pure : {A : Type 0} → A → Run A
pure a t = (some a, t)

abbrev pub continue : {A B : Type 0} → Option A → (A → Run B) → Run B
continue none f t = (none, t)
continue (some a) f t = f a t

infixl 5 ◌>>=◌ ◌>>◌
abbrev pub ◌>>=◌ : {A B : Type 0} → Run A → (A → Run B) → Run B
◌>>=◌ m f t = let (a, t') = m t in continue a f t'

abbrev pub ◌>>◌ : {B : Type 0} → Run (Unit {0}) → Run B → Run B
m >> k = m >>= λ _. k

abbrev pub exit : Run (Unit {0})
exit t = (none, t)

-- `if test { … }`
abbrev pub when : Bool → Run (Unit {0}) → Run (Unit {0})
when test m = if test then m else pure tt

module _ (host : Host) where
  unfoldable pub perform : Step → Run (Unit {0})
  perform step t = if host.succeeds t step then (some tt, step ∷ t) else (none, t)

  -- `if os.Getenv(name) == "" { …; os.Exit(1) }`
  unfoldable pub require : String → Run (Unit {0})
  require name = when (is_empty (host.getenv name)) exit

  -- A watcher for the certificate in this directory, where one is given.
  unfoldable pub watch : String → String → String → Run (Option CertWatcher)
  unfolding perform
  watch path name key = if is_empty path then pure none else (do
    let watcher : CertWatcher = record {
      cert_file = host.join path name;
      key_file = host.join path key;
    }
    perform (watched watcher)
    pure (some watcher))

  unfoldable pub add_watcher : Option CertWatcher → Run (Unit {0})
  unfolding perform
  add_watcher none = pure tt
  add_watcher (some w) = perform (added_watcher w)

  -- mgr.Start: the call is made in any case; an error of it ends the program.
  unfoldable pub start : Run (Unit {0})
  start t = if host.succeeds t started then (some tt, started ∷ t) else (none, started ∷ t)

  abbrev pub webhooks_enabled : Bool
  webhooks_enabled = not (host.getenv "ENABLE_WEBHOOKS" == "false")

  abbrev pub with_certificate : Option CertWatcher → List TlsOption → List TlsOption
  with_certificate none options = options
  with_certificate (some w) options = options ++ certificate_of w ∷ []

  abbrev pub tls_options : Flags → List TlsOption
  tls_options flags = if flags.enable_http2 then [] else disable_http2 ∷ []

  unfoldable pub manager_options : Flags → Option CertWatcher → Option CertWatcher → ManagerOptions
  manager_options flags webhook_watcher metrics_watcher = record {
    metrics_bind_address = flags.metrics_addr;
    metrics_secure_serving = flags.metrics_secure;
    metrics_authorized = flags.metrics_secure;
    metrics_tls = with_certificate metrics_watcher (tls_options flags);
    webhook_tls = with_certificate webhook_watcher (tls_options flags);
    health_probe_bind_address = flags.probe_addr;
    leader_election = flags.leader_elect;
    leader_election_id = "3a266022.cluster.x-k8s.io";
  }

  unfoldable pub main : Flags → Run (Unit {0})
  unfolding perform require watch add_watcher start manager_options
  main flags = do
    webhook_watcher ← watch flags.webhook_cert_path flags.webhook_cert_name flags.webhook_cert_key
    metrics_watcher ← watch flags.metrics_cert_path flags.metrics_cert_name flags.metrics_cert_key
    perform got_config
    perform (made_manager (manager_options flags webhook_watcher metrics_watcher))
    require "WX_ONE_HOST"
    require "WX_ONE_USERNAME"
    require "WX_ONE_PASSWORD"
    perform handled_signals
    perform (set_up_controller "WXOneCluster")
    perform (set_up_controller "WXOneMachine")
    when webhooks_enabled (perform (set_up_webhook "WXOneMachine"))
    when webhooks_enabled (perform (set_up_webhook "WXOneMachineTemplate"))
    when webhooks_enabled (perform (set_up_webhook "WXOneCluster"))
    when webhooks_enabled (perform (set_up_webhook "WXOneClusterTemplate"))
    add_watcher metrics_watcher
    add_watcher webhook_watcher
    perform added_healthz
    perform added_readyz
    start
