-- ===== src/Prelude/Json.antt =====
-- JSON values, as `JSON.parse` gives them. An object has each key once.
use mathlib.Core.Bool.{Bool}
use mathlib.Core.Option.{Option, none, some}
use Prim.Native.String.{String}
use eto_mcp.Prelude.Number.{Number}
use eto_mcp.Prelude.Tests.{if◌then◌else◌}
use eto_mcp.Prelude.Text.{str_eq}

mutual
  pub data Json : Type 0 where
    null : Json
    bool : Bool → Json
    num : Number → Json
    str : String → Json
    arr : Items → Json
    obj : Fields → Json

  pub data Items : Type 0 where
    nil : Items
    cons : Json → Items → Items

  pub data Fields : Type 0 where
    end : Fields
    field : String → Json → Fields → Fields

-- `o[k]` of an object's fields.
abbrev pub member : String → Fields → Option Json
member k end = none
member k (field j v fs) = if str_eq j k then some v else member k fs
