-- ===== src/Settings/Record.antt =====
-- The record that is saved: its bytes, its validity, and what `unpack` reads back.
use scu35_bitcoin_lottery_mi.Base.{
  ℕ, ◌+◌, ◌*◌, ◌^◌, ◌≤◌, ◌<◌, ◌≡◌, refl, sym, ap, subst, ◌∙◌, List, [], ◌∷◌, arith, length, at,
  take, length-replicate, length-store_at, at-store_at_before, at-store_at_inside,
  at-store_at_behind, stored_byte-Below, u8, ◌>>>◌, bit_or-add_low, Bytes, Bytes-replicate,
  store_at-Bytes, store_all-Bytes, Fit, Above, ◌++◌, stored_byte-last, store_all, stored_byte,
  length-store_all, at-store_all,
}
use scu35_bitcoin_lottery_mi.Settings.{
  MinerSettings, zeroed, get32, put32, crc, magic, record_fields, record_of,
}

-- What the types of the struct's fields give: sizes of arrays, and ranges.
pub record IsTyped (s : MinerSettings) : Type 0 where
  pub mac_size : length s.mac ≡ 6
  pub port_size : s.port < 2 ^ 16
  pub host_size : length s.host ≡ 96
  pub worker_size : length s.worker ≡ 128
  pub password_size : length s.password ≡ 64
  pub mac_bytes : Bytes s.mac
  pub host_bytes : Bytes s.host
  pub worker_bytes : Bytes s.worker
  pub password_bytes : Bytes s.password

-- Four bytes that lie at `p` as `put32` writes them are read as the number.
get32_parts :
    (b : List ℕ) (p n : ℕ)
    → n < 2 ^ 32
    → at b p ≡ u8 n
    → at b (p + 1) ≡ u8 (n >>> 8)
    → at b (p + 2) ≡ u8 (n >>> 16)
    → at b (p + 3) ≡ u8 (n >>> 24)
    → get32 b p ≡ n
unfolding get32
get32_parts b p n hn h0 h1 h2 h3 =
    let lo = u8 n in
    let mid = u8 (n >>> 8) in
    let high = u8 (n >>> 16) in
    rw
      (
        h0,
        h1,
        h2,
        h3,
        bit_or-add_low 8 mid lo (omega arith),
        bit_or-add_low 16 high (mid * 2 ^ 8 + lo) (omega arith),
        bit_or-add_low 24 (u8 (n >>> 24)) (high * 2 ^ 16 + (mid * 2 ^ 8 + lo)) (omega arith),
      )
      (omega arith)

pub get32-bytes :
    (b : List ℕ) (p n : ℕ)
    → n < 2 ^ 32
    → ((j : ℕ) → j < 4 → at b (p + j) ≡ at (put32 n) j)
    → get32 b p ≡ n
unfolding put32
get32-bytes b p n hn h =
    get32_parts b p n hn
      (ap (at b) {x = p} {y = p + 0} (omega arith) ∙ h 0 (omega arith) ∙ omega arith)
      (h 1 (omega arith)) (h 2 (omega arith)) (h 3 (omega arith))

-- The stores that build the record, in the order of the code.
abbrev stores : MinerSettings → ℕ → List (ℕ × List ℕ)
stores s seq =
    (0, magic)
    ∷ (4, 1 ∷ [])
    ∷ (8, put32 seq)
    ∷ (16, s.mac)
    ∷ (22, u8 s.port ∷ [])
    ∷ (23, u8 (s.port >>> 8) ∷ [])
    ∷ (24, s.host)
    ∷ (120, s.worker)
    ∷ (248, s.password)
    ∷ []

abbrev before_mac : ℕ → List (ℕ × List ℕ)
before_mac seq = (0, magic) ∷ (4, 1 ∷ []) ∷ (8, put32 seq) ∷ []

length-put32 : (n : ℕ) → length (put32 n) ≡ 4
unfolding put32
length-put32 n = refl

put32-Bytes : (n : ℕ) → Bytes (put32 n)
unfolding put32
put32-Bytes n = omega arith

length-zeroed : length zeroed ≡ 512
unfolding zeroed
length-zeroed = length-replicate {A = ℕ} 512 0

record_fields-stores :
    (s : MinerSettings) (seq : ℕ) → record_fields s seq ≡ store_all zeroed (stores s seq)
unfolding record_fields
record_fields-stores s seq = refl

module _ (s : MinerSettings) (sized : IsTyped s) (seq : ℕ) where
  open sized use {
    mac_size, host_size, worker_size, password_size, mac_bytes, host_bytes, worker_bytes,
    password_bytes,
  }

  stores-Fit : Fit 512 (stores s seq)
  stores-Fit = omega (arith, length-put32 seq, mac_size, host_size, worker_size, password_size)

  pub length-record_fields : length (record_fields s seq) ≡ 512
  length-record_fields =
      ap (λ (b : List ℕ). length b) (record_fields-stores s seq)
      ∙ length-store_all zeroed (stores s seq) 512 length-zeroed stores-Fit

  -- A store of the list, with those in front of it and behind it.
  at-record_fields :
      (front back : List (ℕ × List ℕ)) (offset : ℕ) (src : List ℕ) (j : ℕ)
      → stores s seq ≡ front ++ ((offset, src) ∷ back)
      → j < length src
      → Above (offset + length src) back
      → at (record_fields s seq) (offset + j) ≡ at src j
  at-record_fields front back offset src j e h above =
      ap (λ (b : List ℕ). at b (offset + j)) (record_fields-stores s seq)
      ∙ at-store_all zeroed (stores s seq) 512 (offset + j) length-zeroed stores-Fit
      ∙ ap (λ (st : List (ℕ × List ℕ)). stored_byte st (offset + j) (at zeroed (offset + j))) e
      ∙ stored_byte-last front back offset src (offset + j) (at zeroed (offset + j)) (omega arith)
          (omega arith) above
      ∙ ap (at src) (omega arith)

  pub at-mac : (j : ℕ) → j < 6 → at (record_fields s seq) (16 + j) ≡ at s.mac j
  at-mac j h =
      at-record_fields (before_mac seq) _ 16 s.mac j refl (omega (arith, mac_size))
        (omega (arith, mac_size))

  pub at-magic : (j : ℕ) → j < 4 → at (record_fields s seq) (0 + j) ≡ at magic j
  at-magic j h =
      at-record_fields [] _ 0 magic j refl (omega arith) (omega (arith, length-put32 seq))

  pub at-version : at (record_fields s seq) 4 ≡ 1
  at-version = at-record_fields ((0, magic) ∷ []) _ 4 (1 ∷ []) 0 refl (omega arith) (omega arith)

  pub at-seq : (j : ℕ) → j < 4 → at (record_fields s seq) (8 + j) ≡ at (put32 seq) j
  at-seq j h =
      at-record_fields ((0, magic) ∷ (4, 1 ∷ []) ∷ []) _ 8 (put32 seq) j refl
        (omega (arith, length-put32 seq)) (omega (arith, length-put32 seq))

  pub at-port_low : at (record_fields s seq) 22 ≡ u8 s.port
  at-port_low =
      at-record_fields (before_mac seq ++ ((16, s.mac) ∷ [])) _ 22 (u8 s.port ∷ []) 0 refl
        (omega arith) (omega arith)

  abbrev before_high : List (ℕ × List ℕ)
  before_high = before_mac seq ++ ((16, s.mac) ∷ (22, u8 s.port ∷ []) ∷ [])

  pub at-port_high : at (record_fields s seq) 23 ≡ u8 (s.port >>> 8)
  at-port_high =
      at-record_fields before_high _ 23 (u8 (s.port >>> 8) ∷ []) 0 refl (omega arith) (omega arith)

  abbrev before_host : List (ℕ × List ℕ)
  before_host = before_high ++ ((23, u8 (s.port >>> 8) ∷ []) ∷ [])

  pub at-host : (j : ℕ) → j < 96 → at (record_fields s seq) (24 + j) ≡ at s.host j
  at-host j h =
      at-record_fields before_host _ 24 s.host j refl (omega (arith, host_size))
        (omega (arith, host_size))

  pub at-worker : (j : ℕ) → j < 128 → at (record_fields s seq) (120 + j) ≡ at s.worker j
  at-worker j h =
      at-record_fields (before_host ++ ((24, s.host) ∷ [])) _ 120 s.worker j refl
        (omega (arith, worker_size)) (omega (arith, worker_size))

  pub at-password : (j : ℕ) → j < 64 → at (record_fields s seq) (248 + j) ≡ at s.password j
  at-password j h =
      at-record_fields (before_host ++ ((24, s.host) ∷ (120, s.worker) ∷ [])) _ 248 s.password j
        refl (omega (arith, password_size)) tt

  pub length-record_of : length (record_of s seq) ≡ 512
  unfolding record_of
  length-record_of =
      length-store_at (record_fields s seq) 504 (put32 (crc (take 504 (record_fields s seq))))
        (omega (arith, length-record_fields, length-put32 (crc (take 504 (record_fields s seq)))))
      ∙ length-record_fields

  crc_bytes-fit :
      504 + length (put32 (crc (take 504 (record_fields s seq)))) ≤ length (record_fields s seq)
  unfolding put32
  crc_bytes-fit = omega (arith, length-record_fields)

  pub at-record_of_body : (i : ℕ) → i < 504 → at (record_of s seq) i ≡ at (record_fields s seq) i
  unfolding record_of
  at-record_of_body i h =
      at-store_at_before (record_fields s seq) 504 (put32 (crc (take 504 (record_fields s seq)))) i
        crc_bytes-fit h

  pub at-record_of-crc :
      (j : ℕ)
      → j < 4
      → at (record_of s seq) (504 + j) ≡ at (put32 (crc (take 504 (record_fields s seq)))) j
  unfolding record_of
  at-record_of-crc j h =
      at-store_at_inside (record_fields s seq) 504 (put32 (crc (take 504 (record_fields s seq)))) j
        crc_bytes-fit (omega (arith, length-put32 (crc (take 504 (record_fields s seq)))))

  at-fields_last : at (record_fields s seq) 511 ≡ 0
  unfolding zeroed
  at-fields_last =
      ap (λ (b : List ℕ). at b 511) (record_fields-stores s seq)
      ∙ at-store_all zeroed (stores s seq) 512 511 length-zeroed stores-Fit
      ∙ stored_byte-Below (stores s seq) 511 (at zeroed 511)
          (omega (arith, length-put32 seq, mac_size, host_size, worker_size, password_size))

  pub at-record_of_last : at (record_of s seq) 511 ≡ 0
  unfolding record_of
  at-record_of_last =
      at-store_at_behind (record_fields s seq) 504 (put32 (crc (take 504 (record_fields s seq))))
        511 crc_bytes-fit (omega (arith, length-put32 (crc (take 504 (record_fields s seq)))))
      ∙ at-fields_last

  fields-Bytes : Bytes (record_fields s seq)
  unfolding zeroed
  fields-Bytes = subst Bytes (sym (record_fields-stores s seq)) (
      store_all-Bytes zeroed (stores s seq) (Bytes-replicate 512 0 (omega arith)) (
        omega arith,
        (
          omega arith,
          (
            put32-Bytes seq,
            (
              mac_bytes,
              (omega arith, (omega arith, (host_bytes, (worker_bytes, (password_bytes, tt))))),
            ),
          ),
        ),
      ))

  pub record_of-Bytes : Bytes (record_of s seq)
  unfolding record_of
  record_of-Bytes =
      store_at-Bytes (record_fields s seq) 504 (put32 (crc (take 504 (record_fields s seq))))
        fields-Bytes (put32-Bytes _)
