-- ===== src/Sha256/Examples.antt =====
-- The test vector "abc" of FIPS 180-4 and the header of the genesis block of tb/tb_genesis.sv.
use scu35_bitcoin_lottery_mi.Base.{
  ℕ, ◌≡◌, refl, List, [], ◌∷◌, ◌++◌, some, store_at, arith, replicate, Bytes,
}
use scu35_bitcoin_lottery_mi.Sha256.{
  Sha256Ctx, sha256_init, sha256_update, sha256_compress, sha256_final, flush, fitting, absorb,
  zero_fill, count_bytes, close_block, last_block, digest_bytes, store_be32, load_be32,
  bitcoin_header_midstate, bitcoin_header_tail_words, update_loop,
}
use scu35_bitcoin_lottery_mi.Sha256.Digest.{sha256}
use scu35_bitcoin_lottery_mi.Sha256.Calls.{
  updates, updates-sha256_init, header_padding, midstate-sha256,
}

abbrev unset : Sha256Ctx
unset = record { h = []; bit_count = 5; buffer = replicate 64 7; buffer_len = 9 }

abbrev abc_digest : List ℕ
abc_digest =
    0xba ∷ 0x78 ∷ 0x16 ∷ 0xbf ∷ 0x8f ∷ 0x01 ∷ 0xcf ∷ 0xea ∷ 0x41 ∷ 0x41 ∷ 0x40 ∷ 0xde ∷ 0x5d ∷ 0xae
    ∷ 0x22 ∷ 0x23 ∷ 0xb0 ∷ 0x03 ∷ 0x61 ∷ 0xa3 ∷ 0x96 ∷ 0x17 ∷ 0x7a ∷ 0x9c ∷ 0xb4 ∷ 0x10 ∷ 0xff
    ∷ 0x61 ∷ 0xf2 ∷ 0x00 ∷ 0x15 ∷ 0xad ∷ []

abc_in_two : updates ((b'a' ∷ []) ∷ (b'b' ∷ b'c' ∷ []) ∷ []) (sha256_init unset) ≡ some abc_digest
unfolding updates sha256_init sha256_update update_loop flush fitting absorb zero_fill count_bytes
    close_block last_block digest_bytes store_be32 sha256_final sha256_compress load_be32 store_at
abc_in_two = refl

updates-sha256_init_example :
    updates ((b'a' ∷ []) ∷ (b'b' ∷ b'c' ∷ []) ∷ []) (sha256_init unset)
    ≡ some (sha256 (b'a' ∷ b'b' ∷ b'c' ∷ []))
updates-sha256_init_example = updates-sha256_init ((b'a' ∷ []) ∷ (b'b' ∷ b'c' ∷ []) ∷ []) unset refl

abbrev genesis : List ℕ
genesis =
    (1 ∷ 0 ∷ 0 ∷ 0 ∷ [])
    ++ (replicate 32 0
        ++ (0x3b ∷ 0xa3 ∷ 0xed ∷ 0xfd ∷ 0x7a ∷ 0x7b ∷ 0x12 ∷ 0xb2 ∷ 0x7a ∷ 0xc7 ∷ 0x2c ∷ 0x3e ∷ 0x67
            ∷ 0x76 ∷ 0x8f ∷ 0x61 ∷ 0x7f ∷ 0xc8 ∷ 0x1b ∷ 0xc3 ∷ 0x88 ∷ 0x8a ∷ 0x51 ∷ 0x32 ∷ 0x3a
            ∷ 0x9f ∷ 0xb8 ∷ 0xaa ∷ 0x4b ∷ 0x1e ∷ 0x5e ∷ 0x4a ∷ 0x29 ∷ 0xab ∷ 0x5f ∷ 0x49 ∷ 0xff
            ∷ 0xff ∷ 0x00 ∷ 0x1d ∷ 0x1d ∷ 0xac ∷ 0x2b ∷ 0x7c ∷ []))

genesis-Bytes : Bytes genesis
genesis-Bytes = omega arith

midstate-sha256_example :
    (midstate : List ℕ) × (bitcoin_header_midstate unset genesis ≡ some midstate)
    × (sha256 genesis
        ≡ digest_bytes (
            sha256_compress midstate
              (digest_bytes (bitcoin_header_tail_words genesis) ++ header_padding)))
midstate-sha256_example = midstate-sha256 unset genesis refl refl genesis-Bytes
