-- ===== src/Json/Doc.antt =====
-- A JSON value as `json.loads` returns it, where the code walks through it. The keys of an object
-- are distinct; `fraction` holds the text of a number that is no integer.
use omni_flow.Prelude.{
  String, Bool, true, false, Option, none, some, List, [], ◌∷◌, ◌==◌, string_eq, not, if◌then◌else◌,
}
use omni_flow.Prelude.Int.{ℤ, int_is}

mutual
  pub data Doc : Type 0 where
    null : Doc
    flag : Bool → Doc
    num : ℤ → Doc
    fraction : String → Doc
    text : String → Doc
    array : Items → Doc
    object : Fields → Doc

  pub data Items : Type 0 where
    nil : Items
    item : Doc → Items → Items

  pub data Fields : Type 0 where
    end : Fields
    field : String → Doc → Fields → Fields

-- `d.get(key)`
unfoldable pub get : String → Fields → Doc
get key end = null
get key (field k v fields) = if k == key then v else get key fields

-- The truth value; a fraction is not zero.
unfoldable pub truthy : Doc → Bool
truthy null = false
truthy (flag b) = b
truthy (num i) = not (int_is i 0)
truthy (fraction s) = true
truthy (text s) = not (s == "")
truthy (array nil) = false
truthy (array (item d items)) = true
truthy (object end) = false
truthy (object (field k v fields)) = true

-- What a `for` loop over `v or []` runs over, as far as its elements are objects: the characters of a
-- text and the keys of an object are none. `none` for the TypeError of a number or of `True`.
unfoldable pub object_items : Doc → Option (List Fields)
object_items null = some []
object_items (flag b) = if b then none else some []
object_items (num i) = if int_is i 0 then some [] else none
object_items (fraction s) = none
object_items (text s) = some []
object_items (object fields) = some []
object_items (array items) = some (objects items)
  where
    objects : Items → List Fields
    objects nil = []
    objects (item (object fields) items) = fields ∷ objects items
    objects (item _ items) = objects items

-- `isinstance(v, dict)`
abbrev pub as_object : Doc → Option Fields
as_object (object fields) = some fields
as_object _ = none

-- `isinstance(v, str)`
abbrev pub as_text : Doc → Option String
as_text (text s) = some s
as_text _ = none

-- `v == "…"`
abbrev pub is_text : Doc → String → Bool
is_text (text s) t = s == t
is_text _ t = false

abbrev pub is_null : Doc → Bool
is_null null = true
is_null _ = false
