-- ===== src/Bitcoin/Examples.antt =====
-- A header in the form of tb/test_bitcoin.py, hex text, and the theorems at concrete inputs.
use scu35_bitcoin_lottery_mi.Base.{ℕ, ◌≡◌, refl, List, [], ◌∷◌, none, some, arith, replicate}
use scu35_bitcoin_lottery_mi.Sha256.{Sha256Ctx}
use scu35_bitcoin_lottery_mi.Sha256.Digest.{sha256}
use scu35_bitcoin_lottery_mi.Bitcoin.{
  hex_decode, hex_encode, hex_loop, digit_value, put_digit, sha256d, bitcoin_build_header,
  bitcoin_swap32,
}
use scu35_bitcoin_lottery_mi.Bitcoin.Hash.{sha256d-sha256, root_of}
use scu35_bitcoin_lottery_mi.Bitcoin.Header.{header_of, bitcoin_build_header-header_of}
use scu35_bitcoin_lottery_mi.Bitcoin.Hex.{hex_decode-hex_encode}

abbrev unset : Sha256Ctx
unset = record { h = []; bit_count = 0; buffer = replicate 64 0xcc; buffer_len = 3 }

swapped : bitcoin_swap32 0x12345678 ≡ 0x78563412
unfolding bitcoin_swap32
swapped = refl

-- A letter that is no digit, with the first byte already written.
bad_digit : hex_decode (b'a' ∷ b'B' ∷ b'g' ∷ b'0' ∷ []) 4 (0 ∷ 0 ∷ []) 2 ≡ (none, 0xab ∷ 0 ∷ [])
unfolding hex_decode hex_loop digit_value put_digit
bad_digit = refl

hex_decode-hex_encode_example :
    hex_decode (hex_encode (0xab ∷ 7 ∷ [])) 4 (1 ∷ 2 ∷ 3 ∷ []) 2 ≡ (some 2, 0xab ∷ 7 ∷ 3 ∷ [])
hex_decode-hex_encode_example =
    hex_decode-hex_encode (0xab ∷ 7 ∷ []) (1 ∷ 2 ∷ 3 ∷ []) 2 (omega arith) (omega arith)
      (omega arith)

sha256d-sha256_example : sha256d unset (b'a' ∷ []) ≡ some (sha256 (sha256 (b'a' ∷ [])))
sha256d-sha256_example = sha256d-sha256 unset (b'a' ∷ []) refl

abbrev branch : List ℕ
branch = replicate 32 9

bitcoin_build_header-header_of_example :
    bitcoin_build_header unset
      (0x20 ∷ 0 ∷ 0 ∷ 0 ∷ [])
      (replicate 32 5)
      (0x1d ∷ 0 ∷ 0xff ∷ 0xff ∷ [])
      (0x49 ∷ 0x5f ∷ 0xab ∷ 0x29 ∷ [])
      (1 ∷ 2 ∷ [])
      (3 ∷ [])
      (4 ∷ [])
      (5 ∷ [])
      (branch ∷ [])
      (replicate 80 0)
    ≡ some (
        header_of
          (0x20 ∷ 0 ∷ 0 ∷ 0 ∷ [])
          (replicate 32 5)
          (root_of (1 ∷ 2 ∷ []) (3 ∷ []) (4 ∷ []) (5 ∷ []) (branch ∷ []))
          (0x49 ∷ 0x5f ∷ 0xab ∷ 0x29 ∷ [])
          (0x1d ∷ 0 ∷ 0xff ∷ 0xff ∷ []))
bitcoin_build_header-header_of_example =
    bitcoin_build_header-header_of unset (0x20 ∷ 0 ∷ 0 ∷ 0 ∷ []) (replicate 32 5)
      (0x1d ∷ 0 ∷ 0xff ∷ 0xff ∷ []) (0x49 ∷ 0x5f ∷ 0xab ∷ 0x29 ∷ []) (1 ∷ 2 ∷ []) (3 ∷ []) (4 ∷ [])
      (5 ∷ []) (branch ∷ []) (replicate 80 0) refl refl (refl, tt)
