-- ===== src/Srec/Examples.antt =====
-- Runs of `srec_parse` on the lines of tb/ and README.md's format, and the theorems at concrete inputs.
use scu35_bitcoin_lottery_mi.Base.{ℕ, ◌≡◌, ◌≢◌, refl, List, [], ◌∷◌, ◌++◌, arith, length, replicate}
use scu35_bitcoin_lottery_mi.Srec.{SrecRecord, accepted, byte, hex, address_size, srec_parse}
use scu35_bitcoin_lottery_mi.Srec.Loop.{Returns, srec_parse-Returns}
use scu35_bitcoin_lottery_mi.Srec.Format.{Describes, print_record, print_record-Describes}
use scu35_bitcoin_lottery_mi.Srec.Accepts.{srec_parse_complete, srec_parse_sound, stored}
use scu35_bitcoin_lottery_mi.Srec.Integrity.{srec_parse-print_record, srec_parse_detects}
use Prim.Native.Char.{code}
use Prim.Native.String.{String}

abbrev codes : String → List ℕ
codes String.[] = []
codes (String.◌∷◌ c s) = code c ∷ codes s

abbrev blank : SrecRecord
blank = record { address = 0; bytes = replicate 252 0; size = 0; kind = 0 }

-- S1 record: three bytes at 0x0038, and the termination record S705.
abbrev s1_line : List ℕ
s1_line = codes "S106003801020" ++ codes "3BB"

abbrev s1_stored : SrecRecord
s1_stored = stored 1 0x38 (1 ∷ 2 ∷ 3 ∷ []) blank

s1_accepted : srec_parse s1_line (length s1_line) blank ≡ accepted s1_stored
unfolding srec_parse byte hex address_size
s1_accepted = refl

s1_printed : print_record 1 (0 ∷ 0x38 ∷ []) (1 ∷ 2 ∷ 3 ∷ []) ≡ s1_line
unfolding print_record
s1_printed = refl

abbrev s1_wrong : List ℕ
s1_wrong = codes "S106003801020" ++ codes "4BB"

s1_corrupted : srec_parse s1_wrong (length s1_wrong) blank ≢ accepted blank
unfolding srec_parse byte hex address_size
s1_corrupted h = cc

s1_Describes : Describes s1_line 1 0x38 (1 ∷ 2 ∷ 3 ∷ [])
unfolding print_record
s1_Describes =
    print_record-Describes 1 (0 ∷ 0x38 ∷ []) (1 ∷ 2 ∷ 3 ∷ []) refl (omega arith)
      (λ h. absurd (omega arith)) (omega arith) (omega arith)

srec_parse-Returns_example : Returns (srec_parse s1_line 16 blank)
srec_parse-Returns_example = srec_parse-Returns s1_line 16 blank (omega arith) refl

srec_parse_complete_example : srec_parse s1_line (length s1_line) blank ≡ accepted s1_stored
srec_parse_complete_example =
    srec_parse_complete s1_line 1 0x38 (1 ∷ 2 ∷ 3 ∷ []) blank refl s1_Describes

srec_parse_sound_example :
    (kind : ℕ) × (address : ℕ) × (payload : List ℕ) × Describes s1_line kind address payload
    × (s1_stored ≡ stored kind address payload blank)
srec_parse_sound_example = srec_parse_sound s1_line blank s1_stored refl s1_accepted

srec_parse-print_record_example :
    srec_parse
      (print_record 7 (0x80 ∷ 0 ∷ 0 ∷ 0x38 ∷ []) [])
      (length (print_record 7 (0x80 ∷ 0 ∷ 0 ∷ 0x38 ∷ []) []))
      blank
    ≡ accepted (stored 7 0x80000038 [] blank)
srec_parse-print_record_example =
    srec_parse-print_record 7 (0x80 ∷ 0 ∷ 0 ∷ 0x38 ∷ []) [] blank refl (omega arith) (λ h. refl)
      (omega arith) tt refl

srec_parse_detects_example : srec_parse s1_wrong (length s1_wrong) blank ≢ accepted s1_stored
unfolding hex
srec_parse_detects_example =
    srec_parse_detects b'S' b'1' b'3' b'4' (codes "06003801020") (codes "BB") blank blank s1_stored
      s1_stored refl refl (λ h. cc) s1_accepted
