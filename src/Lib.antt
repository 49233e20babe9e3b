-- ===== src/Lib.antt =====
-- A model of the C software of the SCU35 Bitcoin lottery miner: the firmware that keeps the miner's
-- settings in an EEPROM, is loaded as S-records by a bootloader, talks Stratum to a pool, drives
-- the hash engines and reports telemetry. Each part of software/ that is modelled has one file here
-- and a folder of proofs of the same name.
--
-- Base: tests, lists, words and byte arrays that the parts share. A w-bit word is a number with its
-- wrap-around written out; an array is the list of its elements.
--
-- Srec: software/common/srec.c and srec.h. `srec_parse` is the parser of the bootloader, in the
-- order of the C code; a read or a write outside an array is the outcome `fault`. Srec/Format has
-- the format of the lines, with digits and address lengths of its own, and how the functions of the
-- parser agree with them.
--
-- Settings: software/common/settings.c and settings.h. Validation, CRC, `unpack` and the record
-- that a save builds are in Settings; `read_slots`, `settings_load` and `settings_save` are in
-- Settings/Slots, over the callbacks `read` and `write`, which are the interface Settings/Eeprom:
-- each call may fail or lose power, and what is relied on of them is `IsEeprom`. Settings/Current
-- says which settings a memory holds, independently of the callbacks.
--
-- Sha256: software/common/sha256_sw.c and sha256_sw.h. The compression function, and `sha256_init`,
-- `sha256_update` and `sha256_final` over the context record; the loop of an update runs on as many
-- rounds as there are bytes, of which each round takes one at least. Sha256/Digest has the padded
-- message and its digest, the specification of the streaming functions relative to the compression
-- function.
--
-- Bitcoin: software/common/bitcoin.c and bitcoin.h. Hex text, `sha256d`, `bitcoin_swap32` and
-- `bitcoin_build_header`; the loops that copy fields into the header are stores of whole fields.
-- Bitcoin/Target has `bitcoin_target` on numbers of 32 limbs of 32 bits; its loops run over the
-- characters, the exponent and the 1024 bits. Target/Limbs, Target/Bits, Target/Words,
-- Target/Quotients, Target/Divide, Target/Scale, Target/Decimal and Target/Difficulty have what
-- these loops do to numbers.
--
-- Bootloader: software/bootloader/main.c. `get_byte` over the SPI transfer of a page, and `load`
-- over the writes and reads of memory, with every record type. The fuel of the loops is the number
-- of bytes that the flash still has, and each round reads one. Printing is left out, and so are the
-- calibration, the SPI registers and the jump.
--
-- Json: software/common/json_helpers.h, over `JSON_SearchConst` of coreJSON, which is the parameter
-- `lookup`: what it returns for a document and a query.
--
-- Protocol: software/common/miner_protocol.c, over `JSON_Validate` and `JSON_SearchConst`.
-- Protocol/Print has the texts that are printed, a format as the list of its pieces.
--
-- Power: software/common/ina700.c and ina700.h, and software/application/power.c. Power/Driver has
-- the transactions on the bus of the monitors, which are the callbacks of ina700.c, and the rounds
-- of `power_task`. A wait takes at most twelve rounds, since each lasts a tick and the deadline is
-- 10 ticks. Power/History follows one monitor through the rounds of the task. `int32_t` values are
-- integers; the bus callbacks are a parameter whose every call may fail.
--
-- EepromDriver: software/application/eeprom.c, over the reads and writes of the controller's
-- registers. A wait polls at most 100000 times, as the code does; the fuel of the loops over pages
-- and over parts of 16 bytes is the number of bytes, of which each round takes one at least.
--
-- Stratum: software/application/stratum.c. The variables of the file are a record, and every call
-- that leaves the file (register accesses, sends, the clock, `telemetry_`) is added to a log; what
-- such a call returns is a function of the log before it, in the parameter `World`. Stratum/Control
-- says of a log whether the miner is at work, as rtl/bitcoin_miner_axi.sv handles its control and
-- status. Stratum/Work has `build_header`, Stratum/Messages the lines from the pool, Stratum/Shares
-- `service_results`, and Stratum/Session the loop of `stratum_task` over what is received, with its
-- deadlines. The sends of a line take at most as many rounds as it has characters, since each takes
-- one or fails. The loop around a session (settings, name lookup, socket) is left out.
--
-- Dashboard: software/application/dashboard.c. The telemetry is a record with the queue of events;
-- a critical section is one step. Dashboard/Broadcast has a round of `broadcast_task`, with what it
-- reads from outside as an argument and the datagrams that it sends as a result.
-- Dashboard/Configure has `configure` and `config_reply` over the settings store, and the loop that
-- reads a request. The sockets and the loop that sends a reply are left out.
--
-- The loops over arrays are structural recursion, and the loops with fuel are those named above.
-- Not modelled: the network interface, the FreeRTOS hooks, the console, the sockets and the start
-- of the tasks, which are register access and calls of the kernel; the RTL and the desktop
-- dashboard, which are in other languages. Code outside the repository, such as coreJSON, the
-- registers of the devices and the memory on the bus, is a parameter, with the laws that are relied
-- on named. The settings store takes its callbacks as such a parameter too.
pub mod Base
pub mod Bitcoin
pub mod Bootloader
pub mod Dashboard
pub mod EepromDriver
pub mod Json
pub mod Power
pub mod Protocol
pub mod Settings
pub mod Sha256
pub mod Srec
pub mod Stratum
