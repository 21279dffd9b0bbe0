-- ===== src/Cluster/Keeps.antt =====
-- Credentials and login, for properties of the trace that reads and posts leave alone.
use capi_wx_one.Base.{Option, none, some, String}
use capi_wx_one.Api.{WxOneCluster, LocalSecretReference}
use capi_wx_one.Effects.{Env, Trace}
use capi_wx_one.Effects.Ends.{Keeps, IsClosed, Ends-bind, Ends-pure, Ends-call_bind}
use capi_wx_one.Clients.Keeps.{new_wx_one_clients-Keeps}
use capi_wx_one.Cluster.Stages.{connect, credentials, choose_credentials, read_secret}

module _ (env : Env) (P : Trace → Type 0) (closed : IsClosed P) where
  choose_credentials-Keeps :
      (namespace : String) (ref : Option LocalSecretReference) (t : Trace)
      → P t
      → Keeps P (choose_credentials env namespace ref) t
  unfolding choose_credentials read_secret
  choose_credentials-Keeps namespace none t h = Ends-pure _ h
  choose_credentials-Keeps namespace (some ref) t h =
      Ends-call_bind _ _ (λ s _. Ends-pure _ (closed.read_closed _ t h))
        (λ e _. closed.read_closed _ t h)

  pub connect-Keeps : (c : WxOneCluster) (t : Trace) → P t → Keeps P (connect env c) t
  unfolding connect credentials
  connect-Keeps c t h =
      Ends-bind (choose_credentials-Keeps c.meta.namespace c.spec.credentials_secret_ref t h)
        λ creds t1 h1. new_wx_one_clients-Keeps env P closed creds.host creds.user creds.pass t1 h1
