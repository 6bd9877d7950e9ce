-- ===== src/Json.antt =====
-- Values that `json.loads` returns, and `dict.get`. A float is kept as its text: the code only
-- ever asks whether a value is an int, and a float is none.
use jeeves.Common.{ℕ, Bool, String, str_eq, if◌then◌else◌}

-- Python's int; `negsuc n` is -(n + 1).
pub data ℤ : Type 0 where
  pos negsuc : ℕ → ℤ

mutual
  pub data Json : Type 0 where
    null : Json
    bool : Bool → Json
    int : ℤ → Json
    real : String → Json
    text : String → Json
    array : Items → Json
    object : Fields → Json

  pub data Items : Type 0 where
    nil : Items
    cons : Json → Items → Items

  pub data Fields : Type 0 where
    end : Fields
    field : String → Json → Fields → Fields

-- `raw.get(key)`: None where the key is missing. The keys of a dict are distinct.
unfoldable pub get : Fields → String → Json
get end key = null
get (field k v rest) key = if str_eq k key then v else get rest key
