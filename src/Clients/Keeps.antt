-- ===== src/Clients/Keeps.antt =====
-- A login, for properties of the trace that reads and posts leave alone.
use capi_wx_one.Base.{String, Option, some, Dict}
use capi_wx_one.Effects.{Env, Trace, Reply, done, failed, Fields, GraphqlClient}
use capi_wx_one.Effects.Ends.{
  Keeps, Ends-bind, Ends-lift, Ends-embed, Ends-first, Ends-call, Ends-attempt, Ends-pure,
  Ends-deref, IsClosed,
}
use capi_wx_one.Clients.Login.{new_wx_one_clients, post, hash_password, checked}
use capi_wx_one.Graphql.Operations
use capi_wx_one.Graphql.Responses.{UserInformation}

module _ (env : Env) (P : Trace → Type 0) (closed : IsClosed P) where
  post-Keeps : (url : String) (body : Dict String) (t : Trace) → P t → Keeps P (post env url body) t
  unfolding post
  post-Keeps url body t h =
      Ends-call _ _ (λ a e. closed.posted_closed url body t h)
        (λ a e. closed.posted_closed url body t h)

  hash_password-Keeps :
      (password : String) (challenge : Option Fields) (t : Trace)
      → P t
      → Keeps P (hash_password env password challenge) t
  unfolding hash_password
  hash_password-Keeps password challenge t h = Ends-bind (Ends-embed h (λ _ _. h)) λ salt t1 h1.
      Ends-bind (Ends-embed h1 (λ _ _. h1)) λ text t2 h2.
        Ends-bind (Ends-embed h2 (λ _ _. h2))
          λ date t3 h3. Ends-bind (Ends-embed h3 (λ _ _. h3)) λ rounds t4 h4. Ends-pure _ h4

  me-Keeps :
      (client : GraphqlClient) (t : Trace) → P t → Keeps P (Operations.me env (some client)) t
  unfolding Operations.me
  me-Keeps client t h =
      Ends-bind (Ends-deref h (λ c e. h)) λ c t1 h1. Ends-attempt _ _ (closed.asked_closed _ t1 h1)

  checked-Keeps :
      (client : GraphqlClient) (r : Reply (Option UserInformation)) (t : Trace)
      → P t
      → Keeps P (checked env client r) t
  unfolding checked
  checked-Keeps client (done user) t h = Ends-pure _ h
  checked-Keeps client (failed e) t h = Ends-pure _ h

  -- Whatever comes back, a login adds only posts and a read to the trace.
  pub new_wx_one_clients-Keeps :
      (host user pass : String) (t : Trace)
      → P t
      → Keeps P (new_wx_one_clients env host user pass) t
  unfolding new_wx_one_clients
  new_wx_one_clients-Keeps host user pass t h = Ends-bind (post-Keeps _ _ t h) λ response t1 h1.
      Ends-bind (Ends-lift h1 (λ _ _. h1)) λ challenge t2 h2.
        Ends-bind (hash_password-Keeps _ _ t2 h2) λ hashed t3 h3.
          Ends-bind (post-Keeps _ _ t3 h3) λ answer t4 h4.
            Ends-bind (Ends-lift h4 (λ _ _. h4)) λ login t5 h5.
              Ends-bind (Ends-first h5 (λ _ _ _. h5)) λ cookie t6 h6.
                Ends-bind (me-Keeps _ t6 h6) λ reply t7 h7. checked-Keeps _ reply t7 h7
