-- ===== src/Prelude/Json.antt =====
-- JSON values, as `dict[str, Any]` fields carry them. Numbers are integers here: no float value is
-- modelled.
use penguard.Prelude.{ℕ, String, Bool, Option, none, some, ◌==◌, if◌then◌else◌}

pub data ℤ : Type 0 where
  pos : ℕ → ℤ
  negsuc : ℕ → ℤ

mutual
  pub data Json : Type 0 where
    null : Json
    boolean : Bool → Json
    num : ℤ → Json
    str : String → Json
    arr : JsonItems → Json
    obj : JsonFields → Json

  pub data JsonItems : Type 0 where
    nil : JsonItems
    cons : Json → JsonItems → JsonItems

  pub data JsonFields : Type 0 where
    end : JsonFields
    field : String → Json → JsonFields → JsonFields

-- d.get(k) on the fields of an object.
unfoldable pub get_field : String → JsonFields → Option Json
get_field k end = none
get_field k (field j v rest) = if j == k then some v else get_field k rest
