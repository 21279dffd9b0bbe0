-- ===== src/Graphql/Decoding.antt =====
-- What encoding/json does with a struct, on decoded values: a key goes to the field of its name,
-- whatever the case of its letters; an unknown key is passed over; `null` leaves a text as it is
-- and sets a pointer or a slice to nil; a value of another type is an error. The whole text was
-- found to be valid before, so an error of one field is the error of the call. Two arrays under one
-- key are decoded each by itself.
use Prim.Native.Char.{code}
use capi_wx_one.Base.{
  ℕ, ◌-◌, Bool, true, false, Option, none, some, List, [], ◌∷◌, ◌&&◌, ltb, not, String,
  if◌then◌else◌, Slice,
}
use capi_wx_one.Effects.Errors.{Error, Reply, done, failed}
use capi_wx_one.Effects.Values.{
  Json, null, bool, str, arr, obj, Items, nil, cons, Fields, end, field,
}

-- The letter to which encoding/json's foldName takes a code point, as far as a name of ASCII letters
-- can tell: it takes the long s and the Kelvin sign to letters too.
unfoldable pub fold_code : ℕ → ℕ
fold_code c =
    if not (ltb c 97) && ltb c 123
    then c - 32
    else if not (ltb c 383) && ltb c 384
    then 83
    else if not (ltb c 8490) && ltb c 8491
    then 75
    else c

unfoldable pub same_code : ℕ → ℕ → Bool
same_code a b = not (ltb a b) && not (ltb b a)

-- The key of an object, and the name of a field.
unfoldable pub names : String → String → Bool
unfolding fold_code same_code
names String.[] String.[] = true
names String.[] (String.◌∷◌ d t) = false
names (String.◌∷◌ c s) String.[] = false
names (String.◌∷◌ c s) (String.◌∷◌ d t) =
    same_code (fold_code (code c)) (fold_code (code d)) && names s t

abbrev pub and_reply : {A B : Type 0} → Reply A → (A → Reply B) → Reply B
and_reply (failed e) f = failed e
and_reply (done a) f = f a

abbrev pub map_reply : {A B : Type 0} → (A → B) → Reply A → Reply B
map_reply f (failed e) = failed e
map_reply f (done a) = done (f a)

-- The error for a value and the type that it was to have.
module _ (mismatch : Json → String → Error) where
  -- into a string, which holds a text already
  unfoldable pub decode_text : String → Json → Reply String
  decode_text old null = done old
  decode_text old (str s) = done s
  decode_text old v = failed (mismatch v "string")

  -- into a *string and a *bool
  unfoldable pub decode_text_pointer : Json → Reply (Option String)
  decode_text_pointer null = done none
  decode_text_pointer (str s) = done (some s)
  decode_text_pointer v = failed (mismatch v "string")

  unfoldable pub decode_bool_pointer : Json → Reply (Option Bool)
  decode_bool_pointer null = done none
  decode_bool_pointer (bool b) = done (some b)
  decode_bool_pointer v = failed (mismatch v "bool")

  module _ {A : Type 0} (decode : Json → Reply A) where
    unfoldable pub decode_items : Items → Reply (List A)
    decode_items nil = done []
    decode_items (cons v vs) =
        and_reply (decode v) (λ a. map_reply (λ rest. a ∷ rest) (decode_items vs))

    -- into a slice
    unfoldable pub decode_slice : Json → Reply (Slice A)
    unfolding decode_items
    decode_slice null = done none
    decode_slice (arr vs) = map_reply some (decode_items vs)
    decode_slice v = failed (mismatch v "slice")

    -- into a pointer to a struct
    unfoldable pub decode_pointer : Json → Reply (Option A)
    decode_pointer null = done none
    decode_pointer v = map_reply some (decode v)

  module _ {S : Type 0} (set : String → Json → S → Reply S) where
    unfoldable pub decode_fields : Fields → S → Reply S
    decode_fields end s = done s
    decode_fields (field k v fs) s = and_reply (set k v s) (decode_fields fs)

    -- into a struct, which holds values already
    unfoldable pub decode_struct : S → Json → Reply S
    unfolding decode_fields
    decode_struct s null = done s
    decode_struct s (obj fs) = decode_fields fs s
    decode_struct s v = failed (mismatch v "struct")

-- json.Marshal of a pointer, a slice and their elements
abbrev pub encode_pointer : {A : Type 0} → (A → Json) → Option A → Json
encode_pointer encode none = null
encode_pointer encode (some a) = encode a

unfoldable pub encode_items : {A : Type 0} → (A → Json) → List A → Items
encode_items encode [] = nil
encode_items encode (a ∷ l) = cons (encode a) (encode_items encode l)

unfoldable pub encode_slice : {A : Type 0} → (A → Json) → Slice A → Json
unfolding encode_items
encode_slice encode none = null
encode_slice encode (some l) = arr (encode_items encode l)
