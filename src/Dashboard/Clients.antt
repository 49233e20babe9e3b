-- ===== src/Dashboard/Clients.antt =====
-- The subscribers of the telemetry: a new one takes no entry of one that is alive.
use scu35_bitcoin_lottery_mi.Base.{
  ℕ, zero, suc, ◌+◌, Bool, true, false, ◌&&◌, ◌||◌, not, List, [], ◌∷◌, ◌≡◌, ◌≢◌, refl, sym, ap,
  subst, ◌∙◌, ◌⊎◌, inl, inr, if◌then◌else◌, get_elem?, Option, none, some, Option-cases, arith,
}
use scu35_bitcoin_lottery_mi.Dashboard.Broadcast.{
  Peer, Subscriber, same_peer, lapsed, find_place, put_client, subscribe,
}

-- An entry that may be taken for a peer: its own, or one that is free or has lapsed.
abbrev Replaceable : ℕ → Peer → Subscriber → Type 0
Replaceable now peer c =
    ((c.used && same_peer c.peer peer) ≡ true) ⊎ ((not c.used || lapsed now c) ≡ true)

abbrev Place : ℕ → Peer → List Subscriber → ℕ → ℕ → Type 0
Place now peer clients k j =
    (i : ℕ) × (c : Subscriber) × (j ≡ k + i)
    × (get_elem? clients i ≡ some c)
    × Replaceable now peer c

some-eq : {m n : ℕ} → ◌≡◌ {A = Option ℕ} (some m) (some n) → n ≡ m
some-eq e = cc e

remembered :
    (now : ℕ) (peer : Peer) (i j : ℕ) (c : Subscriber) (cs : List Subscriber) (slot : Option ℕ)
    (test : Bool)
    → (not c.used || lapsed now c) ≡ test
    → (if test then some i else slot) ≡ some j
    → (slot ≡ some j) ⊎ Place now peer (c ∷ cs) i j
remembered now peer i j c cs slot true e h = inr (0, c, omega (arith, some-eq h), refl, inr e)
remembered now peer i j c cs slot false e h = inl h

later :
    (now : ℕ) (peer : Peer) (i j : ℕ) (c : Subscriber) (cs : List Subscriber)
    → Place now peer cs (i + 1) j
    → Place now peer (c ∷ cs) i j
later now peer i j c cs (n, d, e, at_n, r) = (suc n, d, omega (arith, e), at_n, r)

in_case {ℓ} :
    {P : Type ℓ} {o : Option ℕ} (b : Bool) (x y : Option ℕ)
    → (b ≡ true → x ≡ o → P)
    → (b ≡ false → y ≡ o → P)
    → (if b then x else y) ≡ o
    → P
in_case true x y p q = p refl
in_case false x y p q = q refl

find_place-Place :
    (now : ℕ) (peer : Peer) (i j : ℕ) (clients : List Subscriber) (slot : Option ℕ)
    → find_place now peer i clients slot ≡ some j
    → (slot ≡ some j) ⊎ Place now peer clients i j
unfolding find_place
find_place-Place now peer i j [] slot h = inl h
find_place-Place now peer i j (c ∷ cs) slot h =
    let slot' = if not c.used || lapsed now c then some i else slot in
    in_case (c.used && same_peer c.peer peer) (some i) (find_place now peer (i + 1) cs slot')
      (λ e q. inr (0, c, omega (arith, some-eq q), refl, inl e))
      (λ _ q. elim (find_place-Place now peer (i + 1) j cs slot' q) [
        | inl k ↦ remembered now peer i j c cs slot (not c.used || lapsed now c) refl k
        | inr p ↦ inr (later now peer i j c cs p)
      ])
      h

put_client-other :
    (clients : List Subscriber) (i j : ℕ) (new : Subscriber)
    → i ≢ j
    → get_elem? (put_client j new clients) i ≡ get_elem? clients i
unfolding put_client
put_client-other [] i j new h = refl
put_client-other (c ∷ cs) zero zero new h = absurd (h refl)
put_client-other (c ∷ cs) zero (suc j) new h = refl
put_client-other (c ∷ cs) (suc i) zero new h = refl
put_client-other (c ∷ cs) (suc i) (suc j) new h = put_client-other cs i j new (λ e. h (ap suc e))

live-other :
    (now : ℕ) (peer : Peer) (c : Subscriber)
    → c.used ≡ true
    → lapsed now c ≡ false
    → same_peer c.peer peer ≡ false
    → Replaceable now peer c
    → ⊥
live-other now peer c used live other r = ground arith

-- A subscriber that has not lapsed keeps its entry when another peer subscribes.
pub get_elem?-subscribe :
    (now : ℕ) (peer : Peer) (clients : List Subscriber) (i : ℕ) (c : Subscriber)
    → get_elem? clients i ≡ some c
    → c.used ≡ true
    → lapsed now c ≡ false
    → same_peer c.peer peer ≡ false
    → get_elem? (subscribe now peer clients) i ≡ some c
unfolding subscribe
get_elem?-subscribe now peer clients i c h used live other =
    elim (Option-cases (find_place now peer 0 clients none)) [
      | inl e ↦ rw (e, subscribe) h
      | inr (j, e) ↦
          rw (e, subscribe)
            (put_client-other clients i j _ (apart j (find_place-Place now peer 0 j clients none e))
              ∙ h)
    ]
  where
    apart : (j : ℕ) → (◌≡◌ {A = Option ℕ} none (some j)) ⊎ Place now peer clients 0 j → i ≢ j
    apart j (inl e) same = cc e
    apart j (inr (n, d, e, at_n, r)) same =
        let here : n ≡ i = omega (arith, e, same) in
        let found : some d ≡ some c = sym at_n ∙ (ap (get_elem? clients) here ∙ h) in
        let entry : d ≡ c = cc found in
        live-other now peer c used live other (subst (Replaceable now peer) entry r)
