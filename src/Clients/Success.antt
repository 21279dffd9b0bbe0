-- ===== src/Clients/Success.antt =====
-- A login against a server that answers as NewWXOneClients expects.
use Prim.Native.Char.{code}
use Prim.Native.Nat.{compare, Ordering}
use capi_wx_one.Base.{ℕ, String, ◌<>◌, Option, some, List, [], ◌∷◌, Dict, ◌≡◌, refl}
use capi_wx_one.Graphql.Operations
use capi_wx_one.Graphql.Responses.{UserInformation}
use capi_wx_one.Effects.{Env, Trace, Reply, done, failed, ok, GraphqlClient, HttpResponse, Fields}
use capi_wx_one.Effects.Ends.{Ends, Ends-bind, Ends-pure, Ends-attempt, Ends-some_bind}
use capi_wx_one.Effects.Known.{Ends-lift_done, Ends-embed_ok, Ends-first_cons, Ends-call_done}
use capi_wx_one.Clients.Login.{
  new_wx_one_clients, post, hash_password, checked, as_string, as_number, get_in, split, or_env,
}

-- The answer to the challenge: a JSON object with three texts and a number.
pub record HasChallenge (fields : Option Fields) : Type 0 where
  pub salt : (s : String) × (as_string (get_in "salt" fields) ≡ ok s)
  pub challenge : (s : String) × (as_string (get_in "challenge" fields) ≡ ok s)
  pub date : (s : String) × (as_string (get_in "date" fields) ≡ ok s)
  pub rounds : (s : String) × (as_number (get_in "rounds" fields) ≡ ok s)

-- Every post is answered with a JSON object, one to `/challenge` with a challenge, and `me` works.
pub record LetsIn (env : Env) : Type 0 where
  pub on_challenge :
      (t : Trace) (host : String) (body : Dict String)
      → (r : HttpResponse) × (fields : Option Fields) × (env.http_post t (host <> "/challenge") body
          ≡ done r)
        × (env.codec.json_decode r.body ≡ done fields)
        × HasChallenge fields
  pub on_login :
      (t : Trace) (host : String) (body : Dict String)
      → (r : HttpResponse) × (fields : Option Fields) × (env.http_post t (host <> "/login") body
          ≡ done r)
        × (env.codec.json_decode r.body ≡ done fields)
  pub on_me :
      (t : Trace) (c : GraphqlClient)
      → (user : Option UserInformation) × (env.api.me t c ≡ done user)

pub split-cons : (sep : ℕ) (s : String) → (w : String) × (ws : List String) × (split sep s ≡ w ∷ ws)
unfolding split
split-cons sep String.[] = ("", [], refl)
split-cons sep (String.◌∷◌ c s) = by_test (compare (code c) sep) (split-cons sep s)
  where
    by_test :
        (o : Ordering)
        → (w : String) × (ws : List String) × (split sep s ≡ w ∷ ws)
        → (w : String) × (ws : List String) × ((elim o [
          | Ordering.eq ↦ "" ∷ split sep s
          | _ ↦ elim (split sep s) [ [] ↦ [] | w ∷ ws ↦ String.◌∷◌ c w ∷ ws ]
        ])
            ≡ w ∷ ws)
    by_test Ordering.eq (w, ws, e) = ("", split sep s, refl)
    by_test Ordering.lt (w, ws, e) = (String.◌∷◌ c w, ws, rw (e) refl)
    by_test Ordering.gt (w, ws, e) = (String.◌∷◌ c w, ws, rw (e) refl)

module _ (env : Env) (lets_in : LetsIn env) where
  hash_password-returns :
      (password : String) (fields : Option Fields) (t : Trace)
      → HasChallenge fields
      → Ends (λ _ _. Unit {0}) (λ _. ⊥) (hash_password env password fields) t
  unfolding hash_password
  hash_password-returns password fields t has = Ends-embed_ok _ has.salt.0 has.salt.1 (
      Ends-embed_ok _ has.challenge.0 has.challenge.1 (
        Ends-embed_ok _ has.date.0 has.date.1
          (Ends-embed_ok _ has.rounds.0 has.rounds.1 (Ends-pure _ tt))))

  checked-done :
      (client : GraphqlClient) (r : Reply (Option UserInformation)) (t : Trace)
      → (user : Option UserInformation) × (r ≡ done user)
      → Ends
          (λ clients _. (c : GraphqlClient) × (clients.graphql_client ≡ some c))
          (λ _. ⊥)
          (checked env client r)
          t
  unfolding checked
  checked-done client (done user) t h = Ends-pure _ (client, refl)
  checked-done client (failed e) t (user, p) = absurd cc

  -- Where the server answers each post as expected and accepts `me`, a login returns a client.
  pub new_wx_one_clients-returns :
      (host user pass : String) (t : Trace)
      → Ends
          (λ clients _. (c : GraphqlClient) × (clients.graphql_client ≡ some c))
          (λ _. ⊥)
          (new_wx_one_clients env host user pass)
          t
  unfolding new_wx_one_clients post Operations.me
  new_wx_one_clients-returns host user pass t =
      let host' = or_env env.codec.getenv host "WX_ONE_HOST" in
      let (r, fields, posted, decoded, has) = lets_in.on_challenge t host' _ in
      Ends-call_done _ r _ _ posted (
        Ends-lift_done _ fields decoded (
          Ends-bind (hash_password-returns _ fields _ has) λ hashed t1 _.
            let (r', fields', posted', decoded') = lets_in.on_login t1 host' _ in
            Ends-call_done _ r' _ _ posted' (
              Ends-lift_done _ fields' decoded' (
                let (w, ws, e) = split-cons b';' r'.set_cookie in
                Ends-first_cons _ w ws e (
                  Ends-bind (Ends-some_bind _ _ (Ends-attempt _ _ (lets_in.on_me _ _)))
                    λ reply t2 h2. checked-done _ reply t2 h2)))))
