-- ===== src/Frontend/Values.antt =====
-- The values that JSON.parse of the browser's storage can give. The only number that the code
-- looks at is the version, and a value without a field gives `undefined`.
use cryptox.Base.{ℕ, ◌==◌, Bool, true, false, if◌then◌else◌, Option, none, some, Codes, same}

mutual
  pub data Value : Type 0 where
    undefined null : Value
    boolean : Bool → Value
    number : ℕ → Value
    text : Codes → Value
    array : Items → Value
    object : Fields → Value

  pub data Items : Type 0 where
    no_items : Items
    item : Value → Items → Items

  pub data Fields : Type 0 where
    no_fields : Fields
    field : Codes → Value → Fields → Fields

abbrev pub find_field : Codes → Fields → Value
find_field key no_fields = undefined
find_field key (field name value rest) = if same name key then value else find_field key rest

-- `value.key`
abbrev pub get : Codes → Value → Value
get key (object members) = find_field key members
get key other = undefined

abbrev pub items_of : Value → Option Items
items_of (array items) = some items
items_of other = none

abbrev pub text_of : Value → Option Codes
text_of (text s) = some s
text_of other = none

abbrev pub boolean_of : Value → Option Bool
boolean_of (boolean b) = some b
boolean_of other = none

abbrev pub is_number : ℕ → Value → Bool
is_number n (number m) = n == m
is_number n other = false

-- `Boolean(value) && typeof value === "object"`
abbrev pub is_object : Value → Bool
is_object (array items) = true
is_object (object members) = true
is_object other = false
