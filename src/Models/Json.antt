-- ===== src/Models/Json.antt =====
-- Python's dictionaries of JSON values, as request payloads and receipt bodies are. `str(uuid)` and
-- `datetime.isoformat()` are texts of their own kinds, so that they are compared as what they are.
use async_gate.Prelude.{
  ℕ, suc, Bool, true, false, ◌==◌, ltb, if◌then◌else◌, String, str_eq, Option, none, some, List, [],
  ◌∷◌,
}

pub data ℤ : Type 0 where
  pos : ℕ → ℤ
  negsuc : ℕ → ℤ

abbrev pub int_lt : ℤ → ℤ → Bool
int_lt (ℤ.pos a) (ℤ.pos b) = ltb a b
int_lt (ℤ.pos a) (ℤ.negsuc b) = false
int_lt (ℤ.negsuc a) (ℤ.pos b) = true
int_lt (ℤ.negsuc a) (ℤ.negsuc b) = ltb b a

abbrev pub int_eq : ℤ → ℤ → Bool
int_eq (ℤ.pos a) (ℤ.pos b) = a == b
int_eq (ℤ.negsuc a) (ℤ.negsuc b) = a == b
int_eq _ _ = false

mutual
  pub data Json : Type 0 where
    null : Json
    bool : Bool → Json
    int : ℤ → Json
    -- The literal of a number that is not an integer.
    float : String → Json
    str : String → Json
    uuid : ℕ → Json
    time : ℕ → Json
    arr : Items → Json
    obj : Fields → Json

  pub data Items : Type 0 where
    nil : Items
    cons : Json → Items → Items

  pub data Fields : Type 0 where
    end : Fields
    field : String → Json → Fields → Fields

abbrev pub num : ℕ → Json
num n = Json.int (ℤ.pos n)

-- d.get(key)
unfoldable pub get : String → Fields → Option Json
get k end = none
get k (field j v d) = if str_eq j k then some v else get k d

-- d[key] = value
unfoldable pub put : String → Json → Fields → Fields
put k v end = field k v end
put k v (field j w d) = if str_eq j k then field j v d else field j w (put k v d)

abbrev pub length_items : Items → ℕ
length_items nil = 0
length_items (cons x xs) = suc (length_items xs)

abbrev pub is_null : Json → Bool
is_null Json.null = true
is_null _ = false

abbrev pub is_end : Fields → Bool
is_end end = true
is_end (field k v d) = false

-- `d.get(key) is not None`
abbrev pub is_given : Option Json → Bool
is_given none = false
is_given (some v) = if is_null v then false else true

-- Python's truth of a value; the literal of a float that is zero is `0.0`.
unfoldable pub truthy : Json → Bool
truthy Json.null = false
truthy (Json.bool b) = b
truthy (Json.int (ℤ.pos n)) = if n == 0 then false else true
truthy (Json.int (ℤ.negsuc n)) = true
truthy (Json.float s) = if str_eq s "0.0" then false else true
truthy (Json.str s) = if str_eq s "" then false else true
truthy (Json.uuid n) = true
truthy (Json.time t) = true
truthy (Json.arr nil) = false
truthy (Json.arr (cons x xs)) = true
truthy (Json.obj end) = false
truthy (Json.obj (field k v d)) = true

-- `value if value else None`, for a value that may be missing.
abbrev pub or_null : Option Json → Json
or_null none = Json.null
or_null (some v) = v

abbrev pub text_or_null : Option String → Json
text_or_null none = Json.null
text_or_null (some s) = Json.str s

abbrev pub time_or_null : Option ℕ → Json
time_or_null none = Json.null
time_or_null (some t) = Json.time t

abbrev pub texts : List String → Items
texts [] = nil
texts (s ∷ ss) = cons (Json.str s) (texts ss)

abbrev pub uuids : List ℕ → Items
uuids [] = nil
uuids (u ∷ us) = cons (Json.uuid u) (uuids us)

abbrev pub dict_or_null : Option Fields → Json
dict_or_null none = Json.null
dict_or_null (some d) = Json.obj d
