-- ===== src/Stratum/Jobs.antt =====
-- `json_hex` of software/application/stratum.c, and the fields of a job from the pool. On a failure
-- the session ends, and what a failing call has written of the job or of the first extranonce is not
-- used, so it is left out.
use scu35_bitcoin_lottery_mi.Base.{
  ℕ, zero, suc, ◌+◌, Bool, true, false, ◌&&◌, not, List, [], ◌∷◌, ◌++◌, Option, none, some, length,
  take, replicate, ltb, ◌==◌, if◌then◌else◌, ◌>>=◌, codes, decimal_text,
}
use scu35_bitcoin_lottery_mi.Bitcoin.{hex_decode}
use scu35_bitcoin_lottery_mi.Json.{
  Found, found, not_found, json_string_type, json_true_type, json_false_type, json_array_type,
  Search, json_string, json_u32,
}
use scu35_bitcoin_lottery_mi.Stratum.{PoolJob}

-- The bytes of a decoded text, each of which is written whole.
unfoldable pub decoded : Option ℕ × List ℕ → Option (List ℕ)
decoded (none, out) = none
decoded (some n, out) = some (take n out)

unfoldable pub hex_found : ℕ → Found → Option (List ℕ)
unfolding decoded
hex_found capacity (found v json_string_type) =
    decoded (hex_decode v (length v) (replicate capacity 0) capacity)
hex_found capacity _ = none

-- `none` is -1.
unfoldable pub json_hex : Search → List ℕ → List ℕ → ℕ → Option (List ℕ)
unfolding hex_found
json_hex lookup document query capacity = hex_found capacity (lookup document query)

abbrev pub given {ℓ} : {A : Type ℓ} → Bool → A → Option A
given test a = if test then some a else none

-- `json_hex(...) == size`.
unfoldable pub json_hex_of : Search → List ℕ → List ℕ → ℕ → Option (List ℕ)
unfolding json_hex
json_hex_of lookup document query size =
    (json_hex lookup document query size >>= λ out. given (length out == size) out)

-- The size of an extranonce: from 1 to 16.
unfoldable pub nonce_size : Search → List ℕ → List ℕ → Option ℕ
nonce_size lookup document query =
    (json_u32 lookup document query >>= λ count.
    given (not (count == 0) && not (ltb 16 count)) count)

-- What a branch of the hash tree is: behind the last, one of 32 bytes, or a failure.
pub data Branch : Type 0 where
  behind_last malformed : Branch
  branch : List ℕ → Branch

unfoldable pub thirty_two : Option (List ℕ) → Branch
thirty_two none = malformed
thirty_two (some out) = if length out == 32 then branch out else malformed

unfoldable pub branch_found : ℕ → Found → Branch
unfolding thirty_two decoded
branch_found i not_found = behind_last
branch_found i (found v json_string_type) =
    if i == 32
    then malformed
    else thirty_two (decoded (hex_decode v (length v) (replicate 32 0) 32))
branch_found i _ = malformed

unfoldable pub branch_query : ℕ → List ℕ
branch_query i = codes "params[4][" ++ (decimal_text i ++ codes "]")

unfoldable pub branch_loop : ℕ → ℕ → Search → List ℕ → Option (List (List ℕ))
branch_loop zero i lookup document = some []
branch_loop (suc left) i lookup document =
    elim (branch_found i (lookup document (branch_query i))) [
      | behind_last ↦ some []
      | malformed ↦ none
      | branch out ↦ (branch_loop left (i + 1) lookup document >>= λ rest. some (out ∷ rest))
    ]

unfoldable pub array_found : Found → Bool
array_found (found v json_array_type) = true
array_found _ = false

unfoldable pub bool_found : Found → Bool
bool_found (found v json_true_type) = true
bool_found (found v json_false_type) = true
bool_found _ = false

-- The fields of `mining.notify`; the number follows from `telemetry_job`.
unfoldable pub parse_job : Search → List ℕ → List ℕ → Option PoolJob
unfolding json_hex_of json_hex array_found bool_found branch_loop branch_found branch_query
parse_job lookup document target = do
  id ← json_string lookup document (codes "params[0]") 128
  prev ← (if length id == 0 then none else json_hex_of lookup document (codes "params[1]") 32)
  coin1 ← json_hex lookup document (codes "params[2]") 4096
  coin2 ← json_hex lookup document (codes "params[3]") 4096
  version ← json_hex_of lookup document (codes "params[5]") 4
  bits ← json_hex_of lookup document (codes "params[6]") 4
  time ← json_string lookup document (codes "params[7]") 9
  branches ←
      (if length time == 8
          && (array_found (lookup document (codes "params[4]"))
              && bool_found (lookup document (codes "params[8]")))
        then branch_loop 33 0 lookup document
        else none)
  some (record {
    id = id;
    time = time;
    number = 0;
    prev = prev;
    version = version;
    bits = bits;
    coin1 = coin1;
    coin2 = coin2;
    branches = branches;
    target = target;
  })
