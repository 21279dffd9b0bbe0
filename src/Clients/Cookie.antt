-- ===== src/Clients/Cookie.antt =====
-- strings.Split, by which the cookie is taken from the Set-Cookie header.
use Prim.Native.Char.{Char, code}
use Prim.Native.Nat.{compare, Ordering}
use Prim.Native.String.append
use text.Mathlib.TextEquality.{codes_equal}
use capi_wx_one.Base.{⊤, ℕ, String, ◌<>◌, List, [], ◌∷◌, ◌≡◌, ◌≢◌, refl, sym, ap, ◌∙◌}
use capi_wx_one.Clients.Login.{split}
use capi_wx_one.Clients.Success.{split-cons}

-- The parts with the separator between them.
abbrev pub join : Char → List String → String
join sep [] = ""
join sep (w ∷ []) = w
join sep (w ∷ v ∷ ws) = w <> String.◌∷◌ sep (join sep (v ∷ ws))

-- The separator is nowhere in a text, and in no part.
abbrev pub Lacks : ℕ → String → Type 0
Lacks sep String.[] = ⊤
Lacks sep (String.◌∷◌ c s) = (compare (code c) sep ≢ Ordering.eq) × Lacks sep s

abbrev pub AllLack : ℕ → List String → Type 0
AllLack sep [] = ⊤
AllLack sep (w ∷ ws) = Lacks sep w × AllLack sep ws

lt≢eq : Ordering.lt ≡ Ordering.eq → ⊥
lt≢eq p = cc

gt≢eq : Ordering.gt ≡ Ordering.eq → ⊥
gt≢eq p = cc

join-front :
    (sep c : Char) (w : String) (ws : List String)
    → join sep (String.◌∷◌ c w ∷ ws) ≡ String.◌∷◌ c (join sep (w ∷ ws))
join-front sep c w [] = refl
join-front sep c w (v ∷ ws) = append.cons c w (String.◌∷◌ sep (join sep (v ∷ ws)))

-- The character in front of the first part, for any test.
front_step :
    (sep c : Char) (s : String) (o : Ordering) (parts : List String)
    → compare (code c) (code sep) ≡ o
    → (w : String) × (ws : List String) × (parts ≡ w ∷ ws)
    → join sep parts ≡ s
    → AllLack (code sep) parts
    → (join sep (elim o [
      | Ordering.eq ↦ "" ∷ parts
      | _ ↦ elim parts [ [] ↦ [] | w ∷ ws ↦ String.◌∷◌ c w ∷ ws ]
    ])
        ≡ String.◌∷◌ c s)
      × AllLack (code sep) (elim o [
        | Ordering.eq ↦ "" ∷ parts
        | _ ↦ elim parts [ [] ↦ [] | w ∷ ws ↦ String.◌∷◌ c w ∷ ws ]
      ])
front_step sep c s Ordering.eq (w ∷ ws) e _ joined lack = (
  append.nil (String.◌∷◌ sep (join sep (w ∷ ws)))
      ∙ ap (λ d. String.◌∷◌ d (join sep (w ∷ ws))) (sym (codes_equal c sep e))
      ∙ ap (String.◌∷◌ c) joined,
  (tt, lack),
)
front_step sep c s Ordering.lt (w ∷ ws) e _ joined lack = (
  join-front sep c w ws ∙ ap (String.◌∷◌ c) joined,
  ((λ same. absurd (lt≢eq (sym e ∙ same)), lack.0), lack.1),
)
front_step sep c s Ordering.gt (w ∷ ws) e _ joined lack = (
  join-front sep c w ws ∙ ap (String.◌∷◌ c) joined,
  ((λ same. absurd (gt≢eq (sym e ∙ same)), lack.0), lack.1),
)
front_step sep c s o [] e (w, ws, p) joined lack = absurd cc

-- Split at a one-byte separator: the parts with the separator between them are the text, and no
-- part has the separator in it.
pub join-split :
    (sep : Char) (s : String)
    → (join sep (split (code sep) s) ≡ s) × AllLack (code sep) (split (code sep) s)
unfolding split
join-split sep String.[] = (refl, (tt, tt))
join-split sep (String.◌∷◌ c s) =
    front_step sep c s (compare (code c) (code sep)) (split (code sep) s) refl
      (split-cons (code sep) s) (join-split sep s).0 (join-split sep s).1
