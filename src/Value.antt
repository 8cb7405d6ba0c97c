-- ===== src/Value.antt =====
-- The dynamic values (interface{}) that the program handles: payloads and expected values from
-- YAML, decoded JSON bodies and AMQP headers.
pub mod Print
pub mod Equal
use chitchat.Base.{ℕ, Str, Bool, List, Dict}
use chitchat.Base.Int.{ℤ}

-- `float` holds the 64 bits of a float64. `list` is []interface{}, `dict` any map with string keys,
-- `any_dict` a map[interface{}]interface{}, `raw` a json.RawMessage; `other` stands for a value of
-- any other type and holds the text that package fmt prints for it. The widths of integers are not
-- told apart.
mutual
  pub data Value : Type 0 where
    null : Value
    bool : Bool → Value
    int : ℤ → Value
    float : ℕ → Value
    str : Str → Value
    bytes : List ℕ → Value
    raw : List ℕ → Value
    list : Values → Value
    dict : Entries → Value
    any_dict : AnyEntries → Value
    other : Str → Value

  pub data Values : Type 0 where
    nil : Values
    cons : Value → Values → Values

  pub data Entries : Type 0 where
    end : Entries
    entry : Str → Value → Entries → Entries

  pub data AnyEntries : Type 0 where
    stop : AnyEntries
    any_entry : Value → Value → AnyEntries → AnyEntries

-- map[string]interface{}
abbrev pub Table : Type 0
Table = Dict Value

-- v == nil
unfoldable pub is_null : Value → Bool
is_null null = Bool.true
is_null _ = Bool.false
