-- ===== src/CloudInit/Trimmed.antt =====
-- The laws of bytes.TrimSpace that the conversion rests on.
use Prim.Native.Char.{code, Char}
use capi_wx_one.Base.{
  String, Bool, true, false, ◌&&◌, ◌≡◌, refl, is_empty, if◌then◌else◌, Option, none, some, ◌∙◌,
  subst,
}
use capi_wx_one.CloudInit.Text.{trim_left, trim_right, trim_space, is_space, after_newline}
use capi_wx_one.CloudInit.Convert.{strip_header, below_header, has_header}
use capi_wx_one.Effects.{ok}

-- Neither the first nor the last character is white space.
abbrev pub starts_with_space : String → Bool
starts_with_space String.[] = false
starts_with_space (String.◌∷◌ c s) = is_space (code c)

abbrev pub ends_with_space : String → Bool
ends_with_space String.[] = false
ends_with_space (String.◌∷◌ c s) = if is_empty s then is_space (code c) else ends_with_space s

abbrev pub IsTrimmed : String → Type 0
IsTrimmed s = (starts_with_space s ≡ false) × (ends_with_space s ≡ false)

-- One character more at the front.
left_step :
    (c : Char) (s rest : String) (b : Bool)
    → is_space (code c) ≡ b
    → starts_with_space rest ≡ false
    → starts_with_space (if b then rest else String.◌∷◌ c s) ≡ false
left_step c s rest true e h = h
left_step c s rest false e h = e

trim_left-starts : (s : String) → starts_with_space (trim_left s) ≡ false
unfolding trim_left
trim_left-starts String.[] = refl
trim_left-starts (String.◌∷◌ c s) =
    left_step c s (trim_left s) (is_space (code c)) refl (trim_left-starts s)

right_step :
    (c : Char) (rest : String) (e b : Bool)
    → is_empty rest ≡ e
    → is_space (code c) ≡ b
    → ends_with_space rest ≡ false
    → ends_with_space (if e && b then String.[] else String.◌∷◌ c rest) ≡ false
right_step c rest true true p q h = refl
right_step c rest true false p q h = rw (p) q
right_step c rest false b p q h = rw (p) h

trim_right-ends : (s : String) → ends_with_space (trim_right s) ≡ false
unfolding trim_right
trim_right-ends String.[] = refl
trim_right-ends (String.◌∷◌ c s) =
    right_step c (trim_right s) (is_empty (trim_right s)) (is_space (code c)) refl refl
      (trim_right-ends s)

first_step :
    (c : Char) (rest : String) (e b : Bool)
    → is_space (code c) ≡ b
    → b ≡ false
    → starts_with_space (if e && b then String.[] else String.◌∷◌ c rest) ≡ false
first_step c rest true true q n = refl
first_step c rest true false q n = q
first_step c rest false b q n = q ∙ n

trim_right-starts :
    (s : String) → starts_with_space s ≡ false → starts_with_space (trim_right s) ≡ false
unfolding trim_right
trim_right-starts String.[] h = refl
trim_right-starts (String.◌∷◌ c s) h =
    first_step c (trim_right s) (is_empty (trim_right s)) (is_space (code c)) refl h

trim_space-IsTrimmed : (s : String) → IsTrimmed (trim_space s)
unfolding trim_space
trim_space-IsTrimmed s =
    (trim_right-starts (trim_left s) (trim_left-starts s), trim_right-ends (trim_left s))

below_header-IsTrimmed : (o : Option String) (b : String) → below_header o ≡ ok b → IsTrimmed b
unfolding below_header
below_header-IsTrimmed none b e = absurd cc
below_header-IsTrimmed (some rest) b e =
    let same : trim_space rest ≡ b = cc in subst IsTrimmed same (trim_space-IsTrimmed rest)

by_header :
    (h : Bool) (s b : String) (o : Option String)
    → (if h then below_header o else ok (trim_space s)) ≡ ok b
    → IsTrimmed b
by_header true s b o e = below_header-IsTrimmed o b e
by_header false s b o e =
    let same : trim_space s ≡ b = cc in subst IsTrimmed same (trim_space-IsTrimmed s)

-- The text that the conversion hands to the YAML library neither begins nor ends with white space,
-- with a cloud-init header or without one.
pub strip_header-IsTrimmed :
    (user_data b : String) → strip_header (trim_space user_data) ≡ ok b → IsTrimmed b
unfolding strip_header
strip_header-IsTrimmed user_data b e =
    by_header (has_header (trim_space user_data)) user_data b (after_newline (trim_space user_data))
      e
