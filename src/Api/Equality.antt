-- ===== src/Api/Equality.antt =====
-- reflect.DeepEqual on the specs: equality can be decided, part by part.
use mathlib.Core.Logic.{dite}
use mathlib.Core.Bool.{Bool-discrete}
use native.Mathlib.Decide.{ℕ_discrete}
use text.Mathlib.Text.{◌==◌ as str_eq}
use capi_wx_one.Base.{String, Bool, true, false, eq_iff}
use capi_wx_one.Api.Cluster.{WxOneClusterSpec}
use capi_wx_one.Api.Machine.{WxOneMachineSpec}
use capi_wx_one.Api.Templates.{WxOneClusterTemplateSpec, WxOneMachineTemplateSpec}

unfoldable pub String-discrete : Discrete String
String-discrete s t =
    dite (Bool-discrete (str_eq s t) true) (λ same. yes ((eq_iff s t).0 same))
      (λ differ. no (λ p. differ ((eq_iff s t).1 p)))

unfoldable pub WxOneClusterSpec-discrete : Discrete WxOneClusterSpec
WxOneClusterSpec-discrete = hlevel (ℕ_discrete, String-discrete)

unfoldable pub WxOneMachineSpec-discrete : Discrete WxOneMachineSpec
WxOneMachineSpec-discrete = hlevel (ℕ_discrete, String-discrete)

unfoldable pub WxOneClusterTemplateSpec-discrete : Discrete WxOneClusterTemplateSpec
WxOneClusterTemplateSpec-discrete = hlevel (ℕ_discrete, String-discrete)

unfoldable pub WxOneMachineTemplateSpec-discrete : Discrete WxOneMachineTemplateSpec
WxOneMachineTemplateSpec-discrete = hlevel (ℕ_discrete, String-discrete)

-- `reflect.DeepEqual(a, b)`
unfoldable pub deep_equal {ℓ} : {A : Type ℓ} → Discrete A → A → A → Bool
deep_equal dec a b = elim (dec a b) [ yes p ↦ true | no n ↦ false ]
