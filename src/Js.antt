-- ===== src/Js.antt =====
-- Values of JavaScript, as the handlers of webhooks read them, and the coercions that they use.
-- Numbers are the natural ones. What the language's library does with text is taken as a record of
-- functions: `Number` of a text and of an array, `JSON.stringify`, `toUpperCase`, and `String` of an
-- object and of an array.
use neura_gen.Base.{ℕ, String, Bool, true, false, Option, none, some, ◌=ₛ◌, if◌then◌else◌, show}

mutual
  pub data Fields : Type 0 where
    field : (key : String) → Value → Fields → Fields
    end : Fields

  pub data Elements : Type 0 where
    element : Value → Elements → Elements
    no_more : Elements

  pub data Value : Type 0 where
    obj : Fields → Value
    arr : Elements → Value
    str : String → Value
    bool : Bool → Value
    num : ℕ → Value
    null undefined : Value

-- `payload[key]`
unfoldable pub get : String → Fields → Value
get key end = undefined
get key (field k v fs) = if k =ₛ key then v else get key fs

pub record Js : Type 0 where
  pub number_of_text : String → Option ℕ
  pub number_of_items : Elements → Option ℕ
  pub stringify : Value → String
  pub to_upper_case : String → String
  pub string_of_object : Value → String

-- `Number(v)`, where it is finite.
abbrev pub to_number : Js → Value → Option ℕ
to_number js undefined = none
to_number js null = some 0
to_number js (bool true) = some 1
to_number js (bool false) = some 0
to_number js (num n) = some n
to_number js (str s) = js.number_of_text s
to_number js (arr xs) = js.number_of_items xs
to_number js (obj fs) = none

-- `typeof v === 'number'`
abbrev pub as_number : Value → Option ℕ
as_number (num n) = some n
as_number undefined = none
as_number null = none
as_number (bool b) = none
as_number (str s) = none
as_number (arr xs) = none
as_number (obj fs) = none

-- `asString`
abbrev pub as_string : Value → Option String
as_string (str s) = some s
as_string undefined = none
as_string null = none
as_string (bool b) = none
as_string (num n) = none
as_string (arr xs) = none
as_string (obj fs) = none

-- `typeof v === 'boolean' ? v : undefined`
abbrev pub as_bool : Value → Option Bool
as_bool (bool b) = some b
as_bool undefined = none
as_bool null = none
as_bool (num n) = none
as_bool (str s) = none
as_bool (arr xs) = none
as_bool (obj fs) = none

-- `!dataRaw || typeof dataRaw !== 'object'` is false: an array passes too, and has no named keys.
abbrev pub as_object : Value → Option Fields
as_object (obj fs) = some fs
as_object (arr xs) = some end
as_object undefined = none
as_object null = none
as_object (bool b) = none
as_object (num n) = none
as_object (str s) = none

-- `String(v)` of a value that is neither an object nor an array.
abbrev pub to_text : Js → Value → String
to_text js undefined = "undefined"
to_text js null = "null"
to_text js (bool true) = "true"
to_text js (bool false) = "false"
to_text js (num n) = show n
to_text js (str s) = s
to_text js (arr xs) = js.stringify (arr xs)
to_text js (obj fs) = js.stringify (obj fs)

-- `String(v)`
abbrev pub string_of : Js → Value → String
string_of js (arr xs) = js.string_of_object (arr xs)
string_of js (obj fs) = js.string_of_object (obj fs)
string_of js v = to_text js v

-- `(v ?? '').toUpperCase()`: of another value than a text it throws a TypeError.
abbrev pub upper_case_of : Js → Value → Option String
upper_case_of js (str s) = some (js.to_upper_case s)
upper_case_of js undefined = some (js.to_upper_case "")
upper_case_of js null = some (js.to_upper_case "")
upper_case_of js (bool b) = none
upper_case_of js (num n) = none
upper_case_of js (arr xs) = none
upper_case_of js (obj fs) = none
