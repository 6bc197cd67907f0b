-- ===== src/Json.antt =====
-- JSON values as Go's encoding/json decodes them into `any`, and the accessors of
-- engine/cli/internal/jsonutil/jsonutil.go.
--
-- The codec of Go's library is the parameter `Codec`. A float64 is carried by its 64 bits and by what
-- Go's conversion to `int` makes of it. A decoded object has each key once.
use agentrun.Prelude.{
  ℕ, suc, zero, ◌+◌, ◌/◌, ◌%◌, ltb, Str, Bool, false, Option, none, some, List, [], ◌∷◌, ◌++◌,
  if◌then◌else◌, Assoc, lookup, ℤ, pos, negsuc, contains_byte,
}

pub record Number : Type 0 where
  pub float_bits : ℕ
  pub as_int : ℤ

mutual
  pub data Json : Type 0 where
    null : Json
    boolean : Bool → Json
    number : Number → Json
    string : Str → Json
    array : Items → Json
    object : Fields → Json

  pub data Items : Type 0 where
    no_items : Items
    item : Json → Items → Items

  pub data Fields : Type 0 where
    no_fields : Fields
    field : Str → Json → Fields → Fields

-- map[string]any
abbrev pub Object : Type 0
Object = Assoc Json

abbrev pub items : Items → List Json
items no_items = []
items (item v vs) = v ∷ items vs

abbrev pub fields : Fields → Object
fields no_fields = []
fields (field k v fs) = (k, v) ∷ fields fs

-- json.Unmarshal into a map: its error, or the map, which is empty for `null`.
pub data Decoding : Type 0 where
  invalid : Str → Decoding
  decoded : Object → Decoding

-- json.Marshal: its error, or the text.
pub data Encoding : Type 0 where
  failed : Str → Encoding
  encoded : Str → Encoding

-- json.Unmarshal of a line, and json.Marshal.
pub record Codec : Type 0 where
  pub decode : Str → Decoding
  pub marshal : Json → Encoding

-- v.(string), with the zero value if it is none.
abbrev pub string_of : Option Json → Str
string_of (some (string s)) = s
string_of _ = []

-- v.(string) with `ok`.
abbrev pub string? : Option Json → Option Str
string? (some (string s)) = some s
string? _ = none

abbrev pub object? : Option Json → Option Object
object? (some (object fs)) = some (fields fs)
object? _ = none

abbrev pub fields? : Option Json → Option Fields
fields? (some (object fs)) = some fs
fields? _ = none

-- v.([]any), with nil if it is none.
abbrev pub items_of : Option Json → List Json
items_of (some (array vs)) = items vs
items_of _ = []

abbrev pub bool_of : Option Json → Bool
bool_of (some (boolean b)) = b
bool_of _ = false

abbrev pub int_of : Option Json → ℤ
int_of (some (number n)) = n.as_int
int_of _ = pos 0

abbrev pub bits_of : Option Json → ℕ
bits_of (some (number n)) = n.float_bits
bits_of _ = 0

-- GetString
unfoldable pub get_string : Object → Str → Str
get_string m key = string_of (lookup key m)

-- GetInt
unfoldable pub get_int : Object → Str → ℤ
get_int m key = int_of (lookup key m)

-- GetFloat, by its bits
unfoldable pub get_float : Object → Str → ℕ
get_float m key = bits_of (lookup key m)

-- ContainsNull
unfoldable pub contains_null : Str → Bool
contains_null s = contains_byte s 0

-- The decimal digits of a number of at most as many digits as the fuel.
unfoldable pub digits : ℕ → ℕ → Str
digits zero n = []
digits (suc fuel) n =
    let high = digits fuel (n / 10) in (if ltb n 10 then [] else high) ++ (48 + n % 10) ∷ []

-- strconv.Itoa, and the verb %d: 20 digits are enough for 64 bits.
unfoldable pub itoa : ℤ → Str
unfolding digits
itoa (pos n) = digits 20 n
itoa (negsuc n) = 45 ∷ digits 20 (suc n)
