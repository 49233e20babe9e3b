-- ===== src/Json.antt =====
-- software/common/json_helpers.h: fields of a JSON document, over `JSON_SearchConst` of coreJSON.
-- A text is the list of its bytes, without the NUL of a C string.
pub mod Number
mod Examples
use scu35_bitcoin_lottery_mi.Base.{
  ℕ, ◌+◌, ◌-◌, ◌*◌, ◌/◌, ◌^◌, Bool, true, false, ◌||◌, Option, none, some, List, [], ◌∷◌, length,
  ltb, leb, ◌==◌, if◌then◌else◌, u32,
}

pub data JsonType : Type 0 where
  json_string_type json_number_type json_true_type json_false_type json_array_type : JsonType
  json_other_type : JsonType

-- What a search for a query in a document returns: the text of a value and its type, that the
-- query is not there, or another error.
pub data Found : Type 0 where
  found : List ℕ → JsonType → Found
  not_found search_failed : Found

abbrev pub Search : Type 0
Search = List ℕ → List ℕ → Found

-- The loop of `json_string`: whether every character may stand in a text.
unfoldable pub plain : List ℕ → Bool
plain [] = true
plain (c ∷ cs) = let rest = plain cs in if c == b'\\' || ltb c 32 || ltb 126 c then false else rest

unfoldable pub string_found : ℕ → Found → Option (List ℕ)
string_found capacity (found v json_string_type) =
    if leb capacity (length v) then none else (if plain v then some v else none)
string_found capacity _ = none

-- `some` is what `out` holds, up to the NUL, with a return of 0; `none` is -1.
unfoldable pub json_string : Search → List ℕ → List ℕ → ℕ → Option (List ℕ)
unfolding string_found
json_string lookup document query capacity = string_found capacity (lookup document query)

-- The loop of `json_u32`, with the number so far.
unfoldable pub number_loop : ℕ → List ℕ → Option ℕ
number_loop r [] = some r
number_loop r (c ∷ cs) =
    let rest = number_loop (u32 (u32 (r * 10) + (c - b'0'))) cs in
    if ltb c b'0' || ltb b'9' c || ltb ((2 ^ 32 - 1 - (c - b'0')) / 10) r then none else rest

-- The tests of the length and of the characters.
unfoldable pub number_text : List ℕ → Option ℕ
number_text v = if length v == 0 then none else number_loop 0 v

pub number_found : Found → Option ℕ
number_found (found v json_number_type) = number_text v
number_found _ = none

unfoldable pub json_u32 : Search → List ℕ → List ℕ → Option ℕ
unfolding number_found
json_u32 lookup document query = number_found (lookup document query)

true_found : Found → Bool
true_found (found v json_true_type) = true
true_found _ = false

unfoldable pub json_true : Search → List ℕ → List ℕ → Bool
unfolding true_found
json_true lookup document query = true_found (lookup document query)
