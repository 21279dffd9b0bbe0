-- ===== src/Effects/Values.antt =====
-- A decoded JSON value, Go's `interface{}` under encoding/json. A number is kept as its text, since
-- the program has no arithmetic on it but one conversion to int.
use capi_wx_one.Base.{String, Bool}

mutual
  pub data Json : Type 0 where
    null : Json
    bool : Bool → Json
    num : String → Json
    str : String → Json
    arr : Items → Json
    obj : Fields → Json

  -- []interface{}
  pub data Items : Type 0 where
    nil : Items
    cons : Json → Items → Items

  -- map[string]interface{}
  pub data Fields : Type 0 where
    end : Fields
    field : String → Json → Fields → Fields
