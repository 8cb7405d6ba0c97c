-- ===== src/Value/Print.antt =====
-- fmt.Sprint and the verb %v.
use chitchat.Base.{Str, codes, true, false}
use chitchat.Base.Decimal.{itoa_int}
use chitchat.Value.{Value, null, bool, int, str, other}

-- What package fmt prints for floats and for composite values is the argument `format`.
unfoldable pub sprint : (Value → Str) → Value → Str
unfolding itoa_int
sprint format null = codes "<nil>"
sprint format (bool true) = codes "true"
sprint format (bool false) = codes "false"
sprint format (int n) = itoa_int n
sprint format (str s) = s
sprint format (other s) = s
sprint format v = format v
