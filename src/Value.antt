-- ===== src/Value.antt =====
-- JavaScript values that the parsers receive as `unknown`: what `JSON.parse` gives, and `undefined`
-- for a property that an object lacks. A number keeps what the code tests of it.
use pi_codex_adaptor.Prelude.{
  ℕ, String, Bool, true, false, ◌||◌, not, Option, none, some, List, [], ◌∷◌, leb, ltb, str_eq,
  if◌then◌else◌,
}

-- An integer, a finite number with a fractional part (its sign, and the integer part of its
-- magnitude), an infinity (true: negative), or NaN.
pub data Number : Type 0 where
  pos : ℕ → Number
  negsuc : ℕ → Number
  fraction : Bool → ℕ → Number
  infinity : Bool → Number
  nan : Number

abbrev pub max_safe_integer : ℕ
max_safe_integer = 9007199254740991

-- `Number.isSafeInteger(n)`
abbrev pub is_safe_integer : Number → Bool
is_safe_integer (pos n) = leb n max_safe_integer
is_safe_integer (negsuc n) = ltb n max_safe_integer
is_safe_integer _ = false

-- `n > 0`
abbrev pub is_positive : Number → Bool
is_positive (pos n) = ltb 0 n
is_positive (fraction negative n) = not negative
is_positive (infinity negative) = not negative
is_positive _ = false

-- `a >= n` for an integer a at least 0.
abbrev pub reaches : ℕ → Number → Bool
reaches a (pos n) = leb n a
reaches a (negsuc n) = true
reaches a (fraction negative n) = negative || ltb n a
reaches a (infinity negative) = negative
reaches a nan = false

mutual
  pub data Value : Type 0 where
    undefined null : Value
    bool : Bool → Value
    number : Number → Value
    text : String → Value
    array : Items → Value
    object : Fields → Value

  pub data Items : Type 0 where
    nil : Items
    cons : Value → Items → Items

  pub data Fields : Type 0 where
    end : Fields
    field : String → Value → Fields → Fields

unfoldable pub items : Items → List Value
items nil = []
items (cons v vs) = v ∷ items vs

-- `Object.keys`
unfoldable pub keys : Fields → List String
keys end = []
keys (field k v fs) = k ∷ keys fs

-- `value.key`
unfoldable pub get : String → Fields → Value
get k end = undefined
get k (field j v fs) = if str_eq j k then v else get k fs

-- `Object.hasOwn(value, key)`
unfoldable pub has_own : String → Fields → Bool
has_own k end = false
has_own k (field j v fs) = str_eq j k || has_own k fs

-- The value as a record: an object that is neither null nor an array.
abbrev pub as_record : Value → Option Fields
as_record (object fs) = some fs
as_record _ = none

abbrev pub is_text : Value → Bool
is_text (text s) = true
is_text _ = false

-- The texts of an array of texts.
unfoldable pub texts : List Value → List String
texts [] = []
texts (text s ∷ vs) = s ∷ texts vs
texts (_ ∷ vs) = texts vs

unfoldable pub array_of_texts : List String → Items
array_of_texts [] = nil
array_of_texts (s ∷ ss) = cons (text s) (array_of_texts ss)
