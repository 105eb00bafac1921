-- ===== src/Value.antt =====
-- The Python values that payload dictionaries hold: `dict[str, Any]` of app/runtime and app/feishu.
-- A float has no constructor; no modelled function looks into one.
pub mod Dicts
use headhunt_agent.Prelude.{
  ℕ, String, Bool, true, false, Option, none, some, str_eq, if◌then◌else◌, suc, ◌&&◌, not, ◌==◌,
  ◌-◌, [], ◌∷◌, any,
}

mutual
  -- `negative n` is the integer -1 - n.
  pub data Value : Type 0 where
    null : Value
    bool : Bool → Value
    int : ℕ → Value
    negative : ℕ → Value
    str : String → Value
    uuid : ℕ → Value
    list : Items → Value
    dict : Fields → Value

  pub data Items : Type 0 where
    nil : Items
    cons : Value → Items → Items

  pub data Fields : Type 0 where
    end : Fields
    field : String → Value → Fields → Fields

-- d.get(key)
unfoldable pub get : String → Fields → Value
get key end = null
get key (field k v rest) = if str_eq k key then v else get key rest

-- {**d, key: value}
unfoldable pub put : String → Value → Fields → Fields
put key v end = field key v end
put key v (field k w rest) = if str_eq k key then field k v rest else field k w (put key v rest)

-- key in d
unfoldable pub has_key : String → Fields → Bool
has_key key end = false
has_key key (field k v rest) = if str_eq k key then true else has_key key rest

-- d.setdefault(key, value)
unfoldable pub set_default : String → Value → Fields → Fields
unfolding has_key put
set_default key v d = if has_key key d then d else put key v d

abbrev pub is_empty : Fields → Bool
is_empty end = true
is_empty (field k v rest) = false

-- An optional text as a value.
abbrev pub or_null : Option String → Value
or_null none = null
or_null (some s) = str s

-- The nonempty text that a value is, as `isinstance(value, str) and value` tests.
unfoldable pub text_of : Value → Option String
text_of (str s) = if str_eq s "" then none else some s
text_of _ = none

-- A value if it is a dict, as `isinstance(value, dict)` tests.
unfoldable pub fields_of : Value → Option Fields
fields_of (dict d) = some d
fields_of _ = none

-- A value if it is a dict with an entry.
unfoldable pub entries_of : Value → Option Fields
entries_of (dict (field k v rest)) = some (field k v rest)
entries_of _ = none

-- bool(value)
unfoldable pub truthy : Value → Bool
truthy null = false
truthy (bool b) = b
truthy (int n) = not (n == 0)
truthy (negative n) = true
truthy (str s) = not (str_eq s "")
truthy (uuid u) = true
truthy (list nil) = false
truthy (list (cons v rest)) = true
truthy (dict end) = false
truthy (dict (field k v rest)) = true

-- a or b
unfoldable pub or_value : Value → Value → Value
unfolding truthy
or_value a b = if truthy a then a else b

-- `isinstance(value, dict)`, with the empty dict for any other value
unfoldable pub dict_value : Value → Fields
dict_value (dict d) = d
dict_value _ = end

abbrev pub bool_int : Bool → ℕ
bool_int true = 1
bool_int false = 0

abbrev pub size : Fields → ℕ
size end = 0
size (field k v rest) = suc (size rest)

-- a == b, where True is 1 and a dict has no order
mutual
  unfolding get has_key

  same_value : Value → Value → Bool
  same_value null null = true
  same_value (bool a) (bool b) = bool_int a == bool_int b
  same_value (bool a) (int n) = bool_int a == n
  same_value (int n) (bool b) = n == bool_int b
  same_value (int n) (int m) = n == m
  same_value (negative n) (negative m) = n == m
  same_value (str s) (str t) = str_eq s t
  same_value (uuid u) (uuid v) = u == v
  same_value (list xs) (list ys) = same_items xs ys
  same_value (dict d) (dict e) = covered d e && size d == size e
  same_value _ _ = false

  same_items : Items → Items → Bool
  same_items nil nil = true
  same_items (cons x xs) (cons y ys) = same_value x y && same_items xs ys
  same_items _ _ = false

  -- Every entry of the first dict stands in the second.
  covered : Fields → Fields → Bool
  covered end e = true
  covered (field k v rest) e = has_key k e && same_value v (get k e) && covered rest e

unfoldable pub same_fields : Fields → Fields → Bool
unfolding covered
same_fields d e = covered d e && size d == size e
