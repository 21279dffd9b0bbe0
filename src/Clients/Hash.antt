-- ===== src/Clients/Hash.antt =====
-- The password hash of NewWXOneClients against its mathematical description.
use capi_wx_one.Base.{
  ℕ, zero, suc, ◌-◌, String, false, ◌≡◌, refl, ap, ◌∙◌, arith, ltb, if◌then◌else◌,
}
use capi_wx_one.Clients.Login.{next_hash, rehash, hash_rounds}

-- `f` applied `n` times.
abbrev pub iterate {ℓ} : {A : Type ℓ} → (A → A) → ℕ → A → A
iterate f zero x = x
iterate f (suc n) x = f (iterate f n x)

iterate-shift : {A : Type 0} (f : A → A) (n : ℕ) (x : A) → iterate f n (f x) ≡ f (iterate f n x)
iterate-shift f zero x = refl
iterate-shift f (suc n) x = ap f (iterate-shift f n x)

module _ (sum : String → String) (salted : String) where
  rehash-iterate :
      (n : ℕ) (hash : String) → rehash sum salted n hash ≡ iterate (next_hash sum salted) n hash
  unfolding rehash
  rehash-iterate zero hash = refl
  rehash-iterate (suc n) hash =
      rehash-iterate n (next_hash sum salted hash) ∙ iterate-shift (next_hash sum salted) n hash

  -- The hash is the round's function applied as often as the server asks for, and once where it
  -- asks for no round.
  pub hash_rounds-iterate :
      (rounds : ℕ) (hash : String)
      → hash_rounds sum salted rounds hash
        ≡ iterate (next_hash sum salted) (if ltb rounds 1 then 1 else rounds) hash
  unfolding hash_rounds
  hash_rounds-iterate zero hash = rehash-iterate 0 _
  hash_rounds-iterate (suc n) hash =
      let predecessor : suc n - 1 ≡ n = omega arith in
      let at_least_one : ltb (suc n) 1 ≡ false = ground arith in
      rw (predecessor, at_least_one)
        (rehash-iterate n (next_hash sum salted hash) ∙ iterate-shift (next_hash sum salted) n hash)
