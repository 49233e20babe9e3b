-- ===== src/Json/Examples.antt =====
-- Numbers at the bound of 32 bits, and the theorem at a concrete input.
use scu35_bitcoin_lottery_mi.Base.{
  ℕ, ◌≡◌, ◌↔◌, ◌≤◌, ◌<◌, ◌^◌, refl, List, [], ◌∷◌, none, some, length, All,
}
use scu35_bitcoin_lottery_mi.Json.{
  Search, found, json_number_type, json_string_type, json_string, json_u32, number_loop,
  number_text,
}
use scu35_bitcoin_lottery_mi.Json.Number.{IsDigit, decimal, json_u32_iff}

abbrev most : List ℕ
most = b'4' ∷ b'2' ∷ b'9' ∷ b'4' ∷ b'9' ∷ b'6' ∷ b'7' ∷ b'2' ∷ b'9' ∷ b'5' ∷ []

abbrev finds_most : Search
finds_most document query = found most json_number_type

most_read : json_u32 finds_most [] [] ≡ some 4294967295
unfolding json_u32 number_text number_loop
most_read = refl

one_more :
    json_u32
      (λ _ _.
        found
          (b'4' ∷ b'2' ∷ b'9' ∷ b'4' ∷ b'9' ∷ b'6' ∷ b'7' ∷ b'2' ∷ b'9' ∷ b'6' ∷ [])
          json_number_type)
      []
      []
    ≡ none
unfolding json_u32 number_text number_loop
one_more = refl

too_long : json_string (λ _ _. found (b'a' ∷ b'b' ∷ []) json_string_type) [] [] 2 ≡ none
unfolding json_string
too_long = refl

json_u32_iff_example :
    (json_u32 finds_most [] [] ≡ some 4294967295)
    ↔ ((1 ≤ length most) × All IsDigit most × (decimal 0 most ≡ 4294967295) × (4294967295 < 2 ^ 32))
json_u32_iff_example = json_u32_iff finds_most [] [] most 4294967295 refl
