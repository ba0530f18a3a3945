-- ===== src/Json/Decode.antt =====
-- encoding/json.Unmarshal at int, []int, string, []string and []json.RawMessage, and
-- strconv.ParseInt(s, 10, 64).
use Prim.Native.Char.{code}
use globalmail.Prelude.{
  ℕ, zero, suc, ◌+◌, ◌-◌, ◌*◌, String, Bool, ◌&&◌, Option, none, some, List, [], ◌∷◌, leb,
  if◌then◌else◌, ◌==◌, nat_eq,
}
use globalmail.Prelude.Int.{ℤ, pos, negsuc, in_range, ℤ_half}

mutual
  pub data Json : Type 0 where
    null : Json
    bool : Bool → Json
    int : ℤ → Json
    other_number : Json
    str : String → Json
    arr : Items → Json
    obj : Json

  pub data Items : Type 0 where
    nil : Items
    cons : Json → Items → Items

-- `empty` is a message of no bytes, `malformed` one that is no JSON.
pub data RawMessage : Type 0 where
  empty malformed : RawMessage
  value : Json → RawMessage

-- A `null` leaves the zero value and is no error.
unfoldable pub json_int : Json → Option ℤ
json_int null = some (pos 0)
json_int (int n) = if in_range ℤ_half n then some n else none
json_int j = none

json_string : Json → Option String
json_string null = some ""
json_string (str s) = some s
json_string j = none

unfoldable pub int_items : Items → Option (List ℤ)
unfolding json_int
int_items nil = some []
int_items (cons j js) = elim (json_int j) [
  | none ↦ none
  | some n ↦ elim (int_items js) [ none ↦ none | some ns ↦ some (n ∷ ns) ]
]

string_items : Items → Option (List String)
unfolding json_string
string_items nil = some []
string_items (cons j js) = elim (json_string j) [
  | none ↦ none
  | some s ↦ elim (string_items js) [ none ↦ none | some ss ↦ some (s ∷ ss) ]
]

raw_items : Items → List RawMessage
raw_items nil = []
raw_items (cons j js) = value j ∷ raw_items js

unfoldable pub decode_int : RawMessage → Option ℤ
unfolding json_int
decode_int (value j) = json_int j
decode_int r = none

unfoldable pub decode_int_list : RawMessage → Option (List ℤ)
unfolding int_items
decode_int_list (value null) = some []
decode_int_list (value (arr js)) = int_items js
decode_int_list r = none

unfoldable pub decode_string : RawMessage → Option String
unfolding json_string
decode_string (value j) = json_string j
decode_string r = none

unfoldable pub decode_string_list : RawMessage → Option (List String)
unfolding string_items
decode_string_list (value null) = some []
decode_string_list (value (arr js)) = string_items js
decode_string_list r = none

unfoldable pub decode_items : RawMessage → Option (List RawMessage)
unfolding raw_items
decode_items (value null) = some []
decode_items (value (arr js)) = some (raw_items js)
decode_items r = none

codes : String → List ℕ
codes String.[] = []
codes (String.◌∷◌ c s) = code c ∷ codes s

is_digit : ℕ → Bool
is_digit c = leb b'0' c && leb c b'9'

digits_from : ℕ → List ℕ → Option ℕ
unfolding is_digit
digits_from acc [] = some acc
digits_from acc (c ∷ cs) =
    let rest = digits_from (acc * 10 + (c - b'0')) cs in if is_digit c then rest else none

digits : List ℕ → Option ℕ
unfolding digits_from
digits [] = none
digits (c ∷ cs) = digits_from 0 (c ∷ cs)

negated : ℕ → ℤ
negated zero = pos 0
negated (suc n) = negsuc n

checked : Option ℤ → Option ℤ
checked none = none
checked (some n) = if in_range ℤ_half n then some n else none

signed : List ℕ → Option ℤ
unfolding digits negated
signed [] = none
signed (c ∷ cs) =
    if c == b'-'
    then elim (digits cs) [ none ↦ none | some n ↦ some (negated n) ]
    else if c == b'+'
    then elim (digits cs) [ none ↦ none | some n ↦ some (pos n) ]
    else elim (digits (c ∷ cs)) [ none ↦ none | some n ↦ some (pos n) ]

unfoldable pub parse_int : String → Option ℤ
unfolding codes signed checked
parse_int s = checked (signed (codes s))
