-- ===== src/Sha256/Stream.antt =====
-- A context holds the message that was given to it, in whatever pieces it came.
use scu35_bitcoin_lottery_mi.Base.{
  ℕ, zero, suc, ◌+◌, ◌*◌, ◌≤◌, ◌<◌, ◌≡◌, refl, sym, subst, ap, ◌∙◌, List, [], ◌∷◌, ◌++◌, arith,
  Bool, some, inl, inr, Bool-cases, ==_iff, ◌==◌, if◌then◌else◌, length, take, drop, append_assoc,
  append-nil, length-append, length-take, length-drop, take-append-drop, u64, store_at,
}
use scu35_bitcoin_lottery_mi.Sha256.{
  Sha256Ctx, sha256_compress, sha256_init, flush, fitting, absorb, update_loop, sha256_update,
}
use scu35_bitcoin_lottery_mi.Sha256.Blocks.{Holds, Holds-append, Holds-compress, hash_blocks}

-- Between calls a buffer is never full.
pub record Held (ctx : Sha256Ctx) (m : List ℕ) : Type 0 where
  pub holds : Holds ctx.h ctx.buffer ctx.buffer_len m
  pub room : ctx.buffer_len < 64

pub record Represents (ctx : Sha256Ctx) (m : List ℕ) : Type 0 where
  pub held : Held ctx m
  pub counted : ctx.bit_count ≡ u64 (length m * 8)

flush-Held :
    (ctx : Sha256Ctx) (m : List ℕ) → Holds ctx.h ctx.buffer ctx.buffer_len m → Held (flush ctx) m
unfolding flush
flush-Held ctx m k = elim (Bool-cases (ctx.buffer_len == 64)) [
  | inl is_full ↦
      subst
        (λ (t : Bool).
          Held
            (if t then record ctx { h = sha256_compress ctx.h ctx.buffer; buffer_len = 0 } else ctx)
            m)
        (sym is_full)
        (record {
          holds = Holds-compress ctx.h ctx.buffer m (
              subst (λ (n : ℕ). Holds ctx.h ctx.buffer n m) ((==_iff ctx.buffer_len 64).0 is_full)
                k);
          room = omega arith;
        })
  | inr not_full ↦
      subst
        (λ (t : Bool).
          Held
            (if t then record ctx { h = sha256_compress ctx.h ctx.buffer; buffer_len = 0 } else ctx)
            m)
        (sym not_full) (record { holds = k; room = ground (arith, k.fits, not_full) })
]

flush-bit_count : (ctx : Sha256Ctx) → (flush ctx).bit_count ≡ ctx.bit_count
unfolding flush
flush-bit_count ctx = elim (Bool-cases (ctx.buffer_len == 64)) [
  | inl h ↦ rw h refl
  | inr h ↦ rw h refl
]

fitting_bounds :
    (ctx : Sha256Ctx) (len : ℕ)
    → ctx.buffer_len < 64
    → 1 ≤ len
    → (1 ≤ fitting ctx len) × (fitting ctx len ≤ len) × (ctx.buffer_len + fitting ctx len ≤ 64)
unfolding fitting
fitting_bounds ctx len h k = (ground arith, ground arith, ground arith)

absorb-Held :
    (ctx : Sha256Ctx) (m input : List ℕ) (n : ℕ)
    → Held ctx m
    → n ≤ length input
    → ctx.buffer_len + n ≤ 64
    → Held (absorb ctx n input) (m ++ take n input)
unfolding absorb
absorb-Held ctx m input n k hn fit =
    let long : length (take n input) ≡ n = omega (arith, length-take n input) in
    flush-Held _ (m ++ take n input) (
      subst
        (λ (l : ℕ).
          Holds ctx.h (store_at ctx.buffer ctx.buffer_len (take n input)) (ctx.buffer_len + l)
            (m ++ take n input))
        long
        (Holds-append ctx.h ctx.buffer ctx.buffer_len m (take n input) k.holds
          (omega (arith, long))))

absorb-bit_count :
    (ctx : Sha256Ctx) (n : ℕ) (input : List ℕ) → (absorb ctx n input).bit_count ≡ ctx.bit_count
unfolding absorb
absorb-bit_count ctx n input = flush-bit_count _

-- Each round takes a byte at least, so as many rounds as there are bytes are enough.
update_loop-Held :
    (fuel : ℕ) (ctx : Sha256Ctx) (m input : List ℕ)
    → length input ≤ fuel
    → Held ctx m
    → (ctx' : Sha256Ctx) × (update_loop fuel ctx input ≡ some ctx')
      × Held ctx' (m ++ input)
      × (ctx'.bit_count ≡ ctx.bit_count)
unfolding update_loop
update_loop-Held fuel ctx m [] h k =
    (ctx, refl, subst (λ (t : List ℕ). Held ctx t) (sym (append-nil m)) k, refl)
update_loop-Held zero ctx m (x ∷ xs) h k = absurd (omega arith)
update_loop-Held (suc fuel) ctx m (x ∷ xs) h k =
    let n = fitting ctx (length (x ∷ xs)) in
    let (least, most, fit) = fitting_bounds ctx (length (x ∷ xs)) k.room (omega arith) in
    let (ctx', runs, held, same) =
      update_loop-Held fuel (absorb ctx n (x ∷ xs)) (m ++ take n (x ∷ xs)) (drop n (x ∷ xs))
        (omega (arith, length-drop n (x ∷ xs), least, h))
        (absorb-Held ctx m (x ∷ xs) n k most fit) in
    (
      ctx',
      runs,
      subst (λ (t : List ℕ). Held ctx' t)
          (append_assoc m (take n (x ∷ xs)) (drop n (x ∷ xs))
            ∙ ap (λ t. m ++ t) (take-append-drop n (x ∷ xs)))
          held,
      same ∙ absorb-bit_count ctx n (x ∷ xs),
    )

-- An update returns, and its context holds the message with the input behind it.
pub sha256_update-Represents :
    (ctx : Sha256Ctx) (m input : List ℕ)
    → Represents ctx m
    → (ctx' : Sha256Ctx) × (sha256_update ctx input ≡ some ctx') × Represents ctx' (m ++ input)
unfolding sha256_update
sha256_update-Represents ctx m input k =
    let start : Sha256Ctx = record ctx {
      bit_count = u64 (ctx.bit_count + u64 (length input * 8));
    } in
    let (ctx', runs, held, same) =
      update_loop-Held (length input) start m input (omega arith)
        (record { holds = k.held.holds; room = k.held.room }) in
    (
      ctx',
      runs,
      record { held = held; counted = omega (arith, same, k.counted, length-append m input) },
    )

pub sha256_init-Represents :
    (ctx : Sha256Ctx) → length ctx.buffer ≡ 64 → Represents (sha256_init ctx) []
unfolding sha256_init hash_blocks
sha256_init-Represents ctx h = record {
  held = record {
    holds = record {
      blocks = 0;
      size = refl;
      fits = omega arith;
      full = h;
      state = refl;
      rest = refl;
    };
    room = omega arith;
  };
  counted = refl;
}
