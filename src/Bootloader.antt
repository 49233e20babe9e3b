-- ===== src/Bootloader.antt =====
-- software/bootloader/main.c: reading the image from flash, and loading its records. The transfer
-- over SPI and the accesses to memory are parameters; printing is left out.
pub mod Memory
pub mod Load
mod Examples
use scu35_bitcoin_lottery_mi.Base.{
  ℕ, zero, suc, ◌+◌, ◌-◌, ◌%◌, ◌^◌, Bool, true, false, ◌&&◌, ◌||◌, not, Option, none, some, List,
  [], ◌∷◌, ◌++◌, length, at, set, ltb, leb, ◌==◌, if◌then◌else◌, u32, bit_and,
}
use scu35_bitcoin_lottery_mi.Srec.{SrecRecord, Parsed, accepted, rejected, fault, srec_parse}

abbrev pub flash_start : ℕ
flash_start = 0x00800000

abbrev pub flash_end : ℕ
flash_end = 0x01000000

abbrev pub ram_start : ℕ
ram_start = 0x80000000

abbrev pub ram_end : ℕ
ram_end = 0x80800000

abbrev pub vectors_size : ℕ
vectors_size = 0x50

-- `flash`, `pos` and `cache`.
pub record Reader : Type 0 where
  pub flash : ℕ
  pub pos : ℕ
  pub cache : List ℕ

-- The 64 bytes behind the command of a transfer that reads at an address, or `none` for -1. Each
-- address is read at most once, so the transfer is a function of it.
abbrev pub Flash : Type 0
Flash = ℕ → Option (List ℕ)

-- `Xil_Out8` and `Xil_In8`, on a memory that need not keep what is written.
pub record Bus : Type 1 where
  pub State : Type 0
  pub out8 : ℕ → ℕ → State → State
  pub in8 : ℕ → State → ℕ

pub after_page : Reader → Option (List ℕ) → Option ℕ × Reader
after_page r none = (none, r)
after_page r (some page) =
    (some (at page 0), record { flash = r.flash + 64; pos = 1; cache = page })

-- `none` is -1.
unfoldable pub get_byte : Flash → Reader → Option ℕ × Reader
unfolding after_page
get_byte pages r =
    if r.pos == 64
    then (if ltb (flash_end - 64) r.flash then (none, r) else after_page r (pages r.flash))
    else (some (at r.cache r.pos), record r { pos = r.pos + 1 })

abbrev pub is_newline : ℕ → Bool
is_newline c = c == 13 || c == 10

-- A line that was read, a return of -1, or a loop that has not ended on the given fuel.
pub data Reading : Type 0 where
  got : List ℕ → Reader → Reading
  broken : Reading
  unread : Reading

-- The inner loop behind the first character.
unfoldable pub read_line : ℕ → Flash → List ℕ → Option ℕ × Reader → Reading
read_line fuel pages line (none, r) = broken
read_line zero pages line (some c, r) = unread
read_line (suc fuel) pages line (some c, r) =
    let rest = read_line fuel pages (line ++ (c ∷ [])) (get_byte pages r) in
    if length line == 514 then broken else (if is_newline c then got line r else rest)

-- The loop over newlines, and the test of the first character.
unfoldable pub start_line : ℕ → Flash → Option ℕ × Reader → Reading
start_line fuel pages (none, r) = broken
start_line zero pages (some c, r) = unread
start_line (suc fuel) pages (some c, r) =
    let rest = start_line fuel pages (get_byte pages r) in
    let line = read_line fuel pages (c ∷ []) (get_byte pages r) in
    if is_newline c then rest else (if c == b'S' then line else broken)

module _ (bus : Bus) where
  open bus use {State, out8, in8}

  -- What `load` changes, its variables and the file's.
  pub record LoadState : Type 0 where
    pub data_records : ℕ
    pub low : ℕ
    pub high : ℕ
    pub vectors : List ℕ
    pub seen : List ℕ
    pub parsed : SrecRecord
    pub memory : State

  -- The loop over the bytes of a record in the vectors.
  unfoldable pub store_vectors : ℕ → ℕ → ℕ → List ℕ → LoadState → LoadState
  store_vectors zero i a bytes st = st
  store_vectors (suc left) i a bytes st =
      store_vectors left (i + 1) a bytes
        (record st { vectors = set st.vectors (a + i) (at bytes i); seen = set st.seen (a + i) 1 })

  -- The loop over the bytes of a record in RAM: each is written and read back.
  unfoldable pub store_ram : ℕ → ℕ → ℕ → List ℕ → State → Bool × State
  store_ram zero i a bytes m = (true, m)
  store_ram (suc left) i a bytes m =
      let m' = out8 (a + i) (at bytes i) m in
      let rest = store_ram left (i + 1) a bytes m' in
      if in8 (a + i) m' == at bytes i then rest else (false, m')

  -- What one record does: the loop goes on, it is left with 0 and an entry, or with -1.
  pub data Step : Type 0 where
    go_on : LoadState → Step
    enter : ℕ → LoadState → Step
    give_up : LoadState → Step

  pub after_ram : ℕ → ℕ → LoadState → Bool × State → Step
  after_ram a size st (false, m) = give_up (record st { memory = m })
  after_ram a size st (true, m) = go_on (record st {
    memory = m;
    low = if ltb a st.low then a else st.low;
    high = if ltb st.high (a + size) then a + size else st.high;
    data_records = u32 (st.data_records + 1);
  })

  -- A record of type 1, 2 or 3.
  unfoldable pub data_record : SrecRecord → LoadState → Step
  unfolding after_ram
  data_record r st =
      let a = r.address in
      if ltb a vectors_size && leb r.size (vectors_size - a)
      then go_on (record (store_vectors r.size 0 a r.bytes st) {
        data_records = u32 (st.data_records + 1);
      })
      else (if leb ram_start a && ltb a ram_end && leb r.size (ram_end - a)
          then after_ram a r.size st (store_ram r.size 0 a r.bytes st.memory)
          else give_up st)

  unfoldable pub entry_ok : ℕ → LoadState → Bool
  entry_ok entry st =
      not (st.data_records == 0) && leb st.low entry && ltb entry st.high && bit_and entry 3 == 0

  unfoldable pub one_record : SrecRecord → LoadState → Step
  one_record r st =
      if r.kind == 0
      then go_on st
      else (if r.kind == 5 || r.kind == 6
          then (if r.address == st.data_records then go_on st else give_up st)
          else (if leb 7 r.kind
              then (if entry_ok r.address st then enter r.address st else give_up st)
              else data_record r st))

  -- `undefined` is an access outside an array in the parser; `spent` is a loop that has not ended.
  pub data Outcome : Type 0 where
    loaded : ℕ → LoadState → Outcome
    failed : LoadState → Outcome
    undefined spent : Outcome

  unfoldable pub after_parse : LoadState → Parsed → Option Step
  after_parse st (accepted r) = some (one_record r (record st { parsed = r }))
  after_parse st (rejected r) = some (give_up (record st { parsed = r }))
  after_parse st fault = none

  unfoldable pub continue_load : (LoadState → Outcome) → Option Step → Outcome
  continue_load rest none = undefined
  continue_load rest (some (go_on st)) = rest st
  continue_load rest (some (enter entry st)) = loaded entry st
  continue_load rest (some (give_up st)) = failed st

  -- The outer loop. Each round reads a line with the fuel that is left.
  unfoldable pub load_line : ℕ → Flash → LoadState → Reading → Outcome
  load_line fuel pages st broken = failed st
  load_line fuel pages st unread = spent
  load_line zero pages st (got line r) = spent
  load_line (suc fuel) pages st (got line r) =
      continue_load (λ st'. load_line fuel pages st' (start_line fuel pages (get_byte pages r)))
        (after_parse st (srec_parse line (length line) st.parsed))

  unfoldable pub load : ℕ → Flash → Reader → LoadState → Outcome
  load fuel pages r st =
      load_line fuel pages (record st { data_records = 0; low = ram_end; high = ram_start })
        (start_line fuel pages (get_byte pages r))

-- The test in `main` that every byte of the four vectors has been seen.
unfoldable pub vector_seen : ℕ → ℕ → List ℕ → Bool
vector_seen zero at_byte seen = true
vector_seen (suc left) at_byte seen =
    let rest = vector_seen left (at_byte + 1) seen in if at seen at_byte == 0 then false else rest

unfoldable pub vectors_seen : List ℕ → Bool
vectors_seen seen =
    vector_seen 8 0 seen && vector_seen 8 8 seen && vector_seen 8 16 seen && vector_seen 8 32 seen
