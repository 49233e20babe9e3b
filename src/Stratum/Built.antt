-- ===== src/Stratum/Built.antt =====
-- `build_header` of the Stratum client: the header, and a new value of the second extranonce for
-- every one.
use scu35_bitcoin_lottery_mi.Base.{
  by_test, ℕ, zero, suc, ◌+◌, ◌^◌, ◌∷◌, ◌==◌, at, none, sym, ◌≤◌, ◌<◌, Bool, true, false, List, [],
  Option, some, ◌≡◌, refl, ap, ◌∙◌, ◌⊎◌, inl, inr, if◌then◌else◌, length, take, replicate, All,
  Bytes, c_text, ◌>>=◌,
}
use scu35_bitcoin_lottery_mi.Bitcoin.{hex_encode, hex_decode}
use scu35_bitcoin_lottery_mi.Bitcoin.Hash.{root_of}
use scu35_bitcoin_lottery_mi.Bitcoin.Header.{header_of, bitcoin_build_header-header_of}
use scu35_bitcoin_lottery_mi.Sha256.{
  Sha256Ctx, sha256_init, bitcoin_header_midstate, bitcoin_header_tail_words,
}
use scu35_bitcoin_lottery_mi.Sha256.Stream.{sha256_update-Represents, sha256_init-Represents}
use scu35_bitcoin_lottery_mi.Stratum.{Client, World, Effect, wrote, write_all, start_range}
use scu35_bitcoin_lottery_mi.Stratum.Fresh.{front, increment_number}
use scu35_bitcoin_lottery_mi.Stratum.Work.{
  increment, build_header, launch, header_parts, job_header, name_extra2, exactly,
}

-- A job of the declared sizes, whose time is four bytes, and a second extranonce of at least one
-- byte that fits its array.
pub record CanBuild (w : World) (s : Client) : Type 0 where
  pub time : List ℕ
  pub reads : exactly 4 (hex_decode s.job.time 8 (replicate 4 0) 4) ≡ some time
  pub hash_buffer : length w.unset.buffer ≡ 64
  pub header_size : length s.header ≡ 80
  pub branch_sizes : All (λ branch. length branch ≡ 32) s.job.branches
  pub extra2_bytes : Bytes s.extra2
  pub extra2_fits : s.extra2_size ≤ length s.extra2
  pub extra2_some : 0 < s.extra2_size

abbrev pub extra2_of : Client → List ℕ
extra2_of s = take s.extra2_size s.extra2

abbrev pub next_header : List ℕ → Client → List ℕ
next_header time s =
    header_of s.job.version s.job.prev
      (root_of s.job.coin1 s.extra1 (extra2_of s) s.job.coin2 s.job.branches) time s.job.bits

-- What was last written to a register of the miner.
abbrev pub register : List Effect → ℕ → Option ℕ
register [] a = none
register (wrote b v ∷ log) a = if b == a then some v else register log a
register (e ∷ log) a = register log a

-- `n` registers from `a` on hold what stands in an array from `i` on.
abbrev pub Holds : List Effect → ℕ → ℕ → ℕ → List ℕ → Type 0
Holds log a zero i values = Unit
Holds log a (suc n) i values =
    (register log a ≡ some (at values i)) × Holds log (a + 4) n (i + 1) values

-- The miner was set to work last, from nonce 0 on, on the range and on a header and a target.
pub record Launched (unset : Sha256Ctx) (header target : List ℕ) (log : List Effect) : Type 0 where
  pub mid : List ℕ
  pub midstate : bitcoin_header_midstate unset header ≡ some mid
  pub middle : Holds log 0x20 8 0 mid
  pub limits : Holds log 0x60 8 0 target
  pub tail : Holds log 0x40 4 0 (bitcoin_header_tail_words header)
  pub first_nonce : register log 0x80 ≡ some 0
  pub nonce_count : register log 0x84 ≡ some (2 ^ 24)
  pub started : register log 0 ≡ some 1

-- A header was built with the value of the second extranonce, which is then the next one, or has
-- run over.
pub record Built (w : World) (time : List ℕ) (s t : Client) : Type 0 where
  pub header : t.header ≡ next_header time s
  pub used : t.extra2_hex ≡ c_text (hex_encode (extra2_of s))
  pub size : t.extra2_size ≡ s.extra2_size
  pub counted :
      front s.extra2_size t.extra2 + (if t.extra_exhausted then 256 ^ s.extra2_size else 0)
      ≡ front s.extra2_size s.extra2 + 1
  pub from_start : t.range_start ≡ 0
  pub flagged : t.running ≡ true
  pub launched : Launched w.unset (next_header time s) s.job.target t.log

carry_only :
    (over exhausted : Bool) (n : ℕ)
    → exhausted ≡ false
    → (if (if over then true else exhausted) then n else 0) ≡ (if over then n else 0)
carry_only true exhausted n e = refl
carry_only false exhausted n e = rw e

launch-Built :
    (w : World) (time header mid : List ℕ) (s : Client)
    → header ≡ next_header time s
    → bitcoin_header_midstate w.unset (next_header time s) ≡ some mid
    → Bytes s.extra2
    → s.extra2_size ≤ length s.extra2
    → 0 < s.extra2_size
    → s.extra_exhausted ≡ false
    → Built w time s (launch (header, mid) (name_extra2 s))
unfolding launch write_all start_range name_extra2
launch-Built w time header mid s h m b n pos e = record {
  header = h;
  used = refl;
  size = refl;
  counted =
      ap (λ (k : ℕ). front s.extra2_size (increment s.extra2_size s.extra2).1 + k)
        (carry_only (increment s.extra2_size s.extra2).0 s.extra_exhausted (256 ^ s.extra2_size) e)
      ∙ increment_number s.extra2_size s.extra2 b n pos;
  from_start = refl;
  flagged = refl;
  launched = record {
    mid = mid;
    midstate = m;
    middle = (refl, (refl, (refl, (refl, (refl, (refl, (refl, (refl, tt))))))));
    limits = (refl, (refl, (refl, (refl, (refl, (refl, (refl, (refl, tt))))))));
    tail = rw (sym h) (refl, (refl, (refl, (refl, tt))));
    first_nonce = refl;
    nonce_count = refl;
    started = refl;
  };
}

midstate_found :
    (unset : Sha256Ctx) (header : List ℕ)
    → length unset.buffer ≡ 64
    → (mid : List ℕ) × (bitcoin_header_midstate unset header ≡ some mid)
unfolding bitcoin_header_midstate
midstate_found unset header h =
    let (c, runs, _) =
      sha256_update-Represents (sha256_init unset) [] (take 64 header)
        (sha256_init-Represents unset h) in
    (c.h, ap (λ (o : Option Sha256Ctx). o >>= λ ctx. some ctx.h) runs)

module _ (w : World) where
  header_found :
      (s : Client) (c : CanBuild w s)
      → (mid : List ℕ) × (header_parts w (name_extra2 s) ≡ some (next_header c.time s, mid))
        × (bitcoin_header_midstate w.unset (next_header c.time s) ≡ some mid)
  unfolding header_parts name_extra2 job_header
  header_found s c =
      let header = next_header c.time s in
      let built =
        bitcoin_build_header-header_of w.unset s.job.version s.job.prev s.job.bits c.time
          s.job.coin1 s.extra1 (extra2_of s) s.job.coin2 s.job.branches s.header c.hash_buffer
          c.header_size c.branch_sizes in
      let (mid, found) = midstate_found w.unset header c.hash_buffer in
      (mid, simp (c.reads, built, found), found)

  -- For a job of the declared sizes whose time is four bytes, and a second extranonce of at least
  -- one byte that fits its array: if the extranonces are exhausted, the call returns -1 and changes
  -- nothing. Otherwise it returns 0, the header is that of the job with the value of the second
  -- extranonce, and the registers of the miner hold the midstate and the last words of that header,
  -- the target of the job, the first nonce 0 and the count 2 ^ 24, and the last write to its
  -- control is the start; the value is then the next one, or, behind the last one, 0 with the
  -- extranonces marked as exhausted.
  pub build_header-Built :
      (s : Client) (c : CanBuild w s)
      → ((s.extra_exhausted ≡ true) × (build_header w s ≡ (false, s)))
        ⊎ ((s.extra_exhausted ≡ false)
            × ((build_header w s).0 ≡ true)
            × Built w c.time s (build_header w s).1)
  unfolding build_header
  build_header-Built s c =
      by_test
        (λ (x : Bool × Client).
          ((s.extra_exhausted ≡ true) × (x ≡ (false, s)))
          ⊎ ((s.extra_exhausted ≡ false) × (x.0 ≡ true) × Built w c.time s x.1))
        s.extra_exhausted _ _ (λ e. inl (e, refl))
        (λ e.
          let (mid, found, midstate) = header_found s c in
          rw found (
            inr (
              e,
              refl,
              launch-Built w c.time (next_header c.time s) mid s refl midstate c.extra2_bytes
                  c.extra2_fits c.extra2_some e,
            )))
