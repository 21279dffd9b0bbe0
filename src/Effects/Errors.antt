-- ===== src/Effects/Errors.antt =====
-- Go's `error` values, as far as the controllers tell them apart, a call's reply, and how a
-- function ends.
use capi_wx_one.Base.{String, Bool, true, false}

pub data Error : Type 0 where
  -- apierrors.IsNotFound holds of it
  not_found : Error
  -- clustercache.ErrClusterNotConnected
  not_connected : Error
  -- errors.New, and any other error of a callee
  message : String → Error
  -- fmt.Errorf with %w
  wrap : String → Error → Error

-- A pair of a value and an error, of which a caller reads one.
pub data Reply (A : Type 0) : Type 0 where
  done : A → Reply A
  failed : Error → Reply A

-- A function returns a value, returns an error, or panics.
pub data Outcome (A : Type 0) : Type 0 where
  ok : A → Outcome A
  err : Error → Outcome A
  panic : Outcome A

abbrev pub outcome : {A : Type 0} → Reply A → Outcome A
outcome (done a) = ok a
outcome (failed e) = err e

-- apierrors.IsNotFound, which looks through wrapped errors
unfoldable pub is_not_found : Error → Bool
is_not_found not_found = true
is_not_found not_connected = false
is_not_found (message s) = false
is_not_found (wrap s e) = is_not_found e

-- errors.Is(err, clustercache.ErrClusterNotConnected)
unfoldable pub is_not_connected : Error → Bool
is_not_connected not_found = false
is_not_connected not_connected = true
is_not_connected (message s) = false
is_not_connected (wrap s e) = is_not_connected e
