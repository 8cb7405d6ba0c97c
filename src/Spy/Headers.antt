-- ===== src/Spy/Headers.antt =====
-- pkg/spy/server.go: normalizeHeaders and normalizeHeaderValue.
pub mod Clean
use chitchat.Base.{Str, [], ◌∷◌}
use chitchat.Value.{
  Value, null, str, bytes, list, dict, Values, nil, cons, Entries, end, entry, Table,
}
use chitchat.Broker.Message.{Bytes}

-- `to_text` is the conversion string(bytes).
module _ (to_text : Bytes → Str) where
  unfoldable mutual
    pub normalize_header_value : Value → Value
    normalize_header_value null = null
    normalize_header_value (bytes b) = str (to_text b)
    normalize_header_value (list xs) = list (normalize_items xs)
    normalize_header_value (dict m) = dict (normalize_entries m)
    normalize_header_value v = v

    pub normalize_items : Values → Values
    normalize_items nil = nil
    normalize_items (cons v vs) = cons (normalize_header_value v) (normalize_items vs)

    pub normalize_entries : Entries → Entries
    normalize_entries end = end
    normalize_entries (entry k v m) = entry k (normalize_header_value v) (normalize_entries m)

  unfoldable pub normalize_headers : Table → Table
  unfolding normalize_header_value normalize_items normalize_entries
  normalize_headers [] = []
  normalize_headers ((k, v) ∷ h) = (k, normalize_header_value v) ∷ normalize_headers h
