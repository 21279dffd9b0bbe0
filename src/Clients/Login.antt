-- ===== src/Clients/Login.antt =====
-- NewWXOneClients. The logging of errors, the timeout and the nil cookie jar are left out.
use Prim.Native.Char.{code}
use Prim.Native.Nat.{compare, Ordering}
use capi_wx_one.Base.{
  ℕ, zero, suc, ◌-◌, String, ◌<>◌, Option, none, some, List, [], ◌∷◌, Dict, is_empty, ◌==◌,
  if◌then◌else◌,
}
use capi_wx_one.Effects.{
  Env, Exec, Reply, done, failed, Outcome, ok, panic, ◌>>=◌, call, lift, embed, pure, first, Json,
  Fields,
}
use capi_wx_one.Effects.Values.{null, num, str, end, field}
use capi_wx_one.Effects.Outside.{GraphqlClient, HttpResponse}
use capi_wx_one.Effects.{Event}
use capi_wx_one.Graphql.Operations
use capi_wx_one.Graphql.Responses.{UserInformation}

-- The zero value has no clients; the resty client is not used again.
pub record WxOneClients : Type 0 where
  pub graphql_client : Option GraphqlClient

-- Go's `m[k]` on a decoded object, nil where the key is missing
unfoldable pub get_field : String → Fields → Json
get_field k end = null
get_field k (field j v fs) = if j == k then v else get_field k fs

-- The same on a map that may be nil.
unfoldable pub get_in : String → Option Fields → Json
unfolding get_field
get_in k none = null
get_in k (some fs) = get_field k fs

-- `v.(string)` and `v.(float64)` panic at another type
unfoldable pub as_string : Json → Outcome String
as_string (str s) = ok s
as_string _ = panic

unfoldable pub as_number : Json → Outcome String
as_number (num n) = ok n
as_number _ = panic

-- strings.Split at a one-byte separator: never the empty list
unfoldable pub split : ℕ → String → List String
split sep String.[] = "" ∷ []
split sep (String.◌∷◌ c s) = elim (compare (code c) sep) [
  | Ordering.eq ↦ "" ∷ split sep s
  | _ ↦ elim (split sep s) [ [] ↦ [] | w ∷ ws ↦ String.◌∷◌ c w ∷ ws ]
]

-- One round: the text that is hashed is `challenge + date + "wizardtales.com" + hex(hash)`.
module _ (sum : String → String) (salted : String) where
  abbrev pub next_hash : String → String
  next_hash hash = sum (salted <> hash)

  -- `for i := 1; i < rounds; i++`, with the rounds that are left
  unfoldable pub rehash : ℕ → String → String
  rehash zero hash = hash
  rehash (suc n) hash = rehash n (next_hash hash)

  -- The first round stands before the loop, so at least one is made.
  unfoldable pub hash_rounds : ℕ → String → String
  unfolding rehash
  hash_rounds rounds hash = rehash (rounds - 1) (next_hash hash)

-- `if host == "" { host = os.Getenv(…) }`
unfoldable pub or_env : (String → String) → String → String → String
or_env getenv value name = if is_empty value then getenv name else value

module _ (env : Env) where
  -- Post, and json.Unmarshal of its body, are the caller's next two steps.
  unfoldable pub post : String → Dict String → Exec HttpResponse
  post url body = call (λ t. env.http_post t url body) (λ _. Event.posted url body)

  -- The hashed password, from the decoded challenge.
  unfoldable pub hash_password : String → Option Fields → Exec String
  unfolding get_in as_string as_number hash_rounds
  hash_password password challenge = do
    salt ← embed (as_string (get_in "salt" challenge))
    let hash = env.codec.sha512_hex (env.codec.to_upper password <> salt)
    text ← embed (as_string (get_in "challenge" challenge))
    date ← embed (as_string (get_in "date" challenge))
    rounds ← embed (as_number (get_in "rounds" challenge))
    pure (
        hash_rounds env.codec.sha512_hex (text <> date <> "wizardtales.com")
          (env.codec.truncate rounds) hash)

  -- `if meErr != nil { return WxOneClients{}, err }`: `err` is nil there.
  unfoldable pub checked : GraphqlClient → Reply (Option UserInformation) → Exec WxOneClients
  checked client (done user) = pure (record { graphql_client = some client })
  checked client (failed me_err) = pure (record { graphql_client = none })

  unfoldable pub new_wx_one_clients : String → String → String → Exec WxOneClients
  new_wx_one_clients host username password = do
    let host = or_env env.codec.getenv host "WX_ONE_HOST"
    let username = or_env env.codec.getenv username "WX_ONE_USERNAME"
    let password = or_env env.codec.getenv password "WX_ONE_PASSWORD"
    challenge_response ← post (host <> "/challenge") (("username", username) ∷ [])
    challenge ← lift (env.codec.json_decode challenge_response.body)
    hashed_password ← hash_password password challenge
    login_response ←
        post (host <> "/login") (("username", username) ∷ ("password", hashed_password) ∷ [])
    login ← lift (env.codec.json_decode login_response.body)
    cookie ← first (split b';' login_response.set_cookie)
    let client : GraphqlClient = record { url = host <> "/graphql"; cookie = cookie }
    user ← Operations.me env (some client)
    checked client user
