-- ===== src/Value/Equal.antt =====
-- reflect.DeepEqual on the values that the program compares.
use chitchat.Base.{
  ℕ, ◌%◌, ◌^◌, ◌*◌, Str, str_eq, ltb, ◌==◌, if◌then◌else◌, Bool, true, false, not, ◌&&◌, ◌||◌,
  Option, none, some, suc,
}
use chitchat.Base.Int.{int_eq}
use chitchat.Value.{
  Value, null, bool, int, float, str, bytes, raw, list, dict, Values, nil, cons, Entries, end,
  entry,
}

-- float64 ==, on the 64 bits: no NaN equals anything, and the two zeros are equal.
unfoldable pub float_eq : ℕ → ℕ → Bool
float_eq a b =
    not (ltb (2047 * 2 ^ 52) (a % 2 ^ 63))
    && not (ltb (2047 * 2 ^ 52) (b % 2 ^ 63))
    && (a == b || (a % 2 ^ 63 == 0 && b % 2 ^ 63 == 0))

bool_eq : Bool → Bool → Bool
bool_eq true b = b
bool_eq false b = not b

find_entry : Str → Entries → Option Value
find_entry k end = none
find_entry k (entry j v m) = if str_eq j k then some v else find_entry k m

size : Entries → ℕ
size end = 0
size (entry k v m) = suc (size m)

-- Maps are equal when they have as many keys and each key of one has an equal value in the other.
-- The program never compares two maps with keys of any type: gjson yields none.
unfoldable mutual
  unfolding float_eq bool_eq find_entry size

  pub deep_equal : Value → Value → Bool
  deep_equal null null = true
  deep_equal (bool a) (bool b) = bool_eq a b
  deep_equal (int a) (int b) = int_eq a b
  deep_equal (float a) (float b) = float_eq a b
  deep_equal (str a) (str b) = str_eq a b
  deep_equal (bytes a) (bytes b) = str_eq a b
  deep_equal (raw a) (raw b) = str_eq a b
  deep_equal (list a) (list b) = equal_items a b
  deep_equal (dict a) (dict b) = size a == size b && equal_entries a b
  deep_equal _ _ = false

  pub equal_items : Values → Values → Bool
  equal_items nil nil = true
  equal_items (cons a as') (cons b bs) = deep_equal a b && equal_items as' bs
  equal_items _ _ = false

  pub equal_entries : Entries → Entries → Bool
  equal_entries end b = true
  equal_entries (entry k v m) b =
      elim (find_entry k b) [ none ↦ false | some w ↦ deep_equal v w ] && equal_entries m b
