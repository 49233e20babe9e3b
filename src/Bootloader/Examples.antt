-- ===== src/Bootloader/Examples.antt =====
-- A flash that holds a two-record image at its start, and a memory that keeps what is written.
use scu35_bitcoin_lottery_mi.Base.{
  ℕ, ◌≡◌, refl, List, [], ◌∷◌, ◌++◌, arith, Option, none, some, replicate, ◌==◌, if◌then◌else◌,
}
use scu35_bitcoin_lottery_mi.Srec.{srec_parse, byte, hex, address_size}
use scu35_bitcoin_lottery_mi.Bootloader.{
  flash_start, ram_start, Reader, Flash, Bus, LoadState, Outcome, loaded, load, load_line, get_byte,
  read_line, start_line, after_parse, continue_load, one_record, data_record, entry_ok, store_ram,
}
use scu35_bitcoin_lottery_mi.Bootloader.Memory.{IsBus}
use scu35_bitcoin_lottery_mi.Bootloader.Load.{Ends, load-Ends}
use Prim.Native.Char.{code}
use Prim.Native.String.{String}

abbrev codes : String → List ℕ
codes String.[] = []
codes (String.◌∷◌ c s) = code c ∷ codes s

abbrev kept : Bus
kept = record { State = ℕ → ℕ; out8 = λ a v m i. if i == a then v else m i; in8 = λ i m. m i }

kept-IsBus : IsBus kept
kept-IsBus = record { out8_outside = λ a v i m ne. ground arith }

-- S3 with two bytes at 0x80000000, and S7 with the entry there; 0x00 fills the page.
abbrev page : List ℕ
page =
    codes "S30780000000"
    ++ (codes "010275" ++ (10 ∷ []))
    ++ (codes "S70580000000" ++ codes "7A" ++ (10 ∷ []))

abbrev image : Flash
image a = if a == flash_start then some page else none

abbrev start_reader : Reader
start_reader = record { flash = flash_start; pos = 64; cache = replicate 64 0 }

abbrev start_state : LoadState kept
start_state = record {
  data_records = 0;
  low = 0;
  high = 0;
  vectors = replicate 0x50 0;
  seen = replicate 0x50 0;
  parsed = record { address = 0; bytes = replicate 252 0; size = 0; kind = 0 };
  memory = λ i. 0;
}

load-Ends_example :
    Ends kept kept-IsBus (λ i. 0) (load kept 0x800000 image start_reader start_state)
load-Ends_example =
    load-Ends kept kept-IsBus (λ i. 0) 0x800000 image start_reader start_state (omega arith)
      (omega arith) refl refl refl (λ i. refl)

-- A short run of the same: the entry is the address of the last record.
entry_of : Outcome kept → Option ℕ
entry_of (loaded entry st) = some entry
entry_of _ = none

small_run : entry_of (load kept 60 image start_reader start_state) ≡ some ram_start
unfolding entry_of load load_line get_byte read_line start_line after_parse continue_load one_record
    data_record entry_ok store_ram srec_parse byte hex address_size
small_run = refl
