-- ===== src/Vm/Cache/Evict.antt =====
-- compiler/rust/crates/squidvm-core/src/chunk.rs: the slot that `evict_candidate_index` picks.
use squid_script.Base.{
  ℕ, suc, ◌+◌, ◌≡◌, ◌≢◌, ◌⊎◌, inl, inr, refl, subst, true, false, Option, none, some, List, [], ◌∷◌,
  All, get_elem?, arith, Bool-cases,
}
use squid_script.Vm.Cache.{Slot, may_evict, older, better, evict_from, evict_candidate_index}

older_irrefl : (a : Slot) → older a a ≡ false
unfolding older
older_irrefl a = ground arith

-- If `a` comes before `b`, and not before `c`, then `b` does not come before `c`.
older_before : (a b c : Slot) → older a b ≡ true → older a c ≡ false → older b c ≡ false
unfolding older
older_before a b c h k = ground arith

older_trans : (a b c : Slot) → older a b ≡ false → older b c ≡ false → older a c ≡ false
unfolding older
older_trans a b c h k = ground arith

-- Index `j` is that of an evictable slot, of `best` or among `slots`, and none comes before it.
record Picked (i j : ℕ) (best : Option (ℕ × Slot)) (slots : List Slot) : Type 0 where
  slot : Slot
  evictable : may_evict slot ≡ true
  place : (best ≡ some (j, slot)) ⊎ ((n : ℕ) × (j ≡ i + n) × (get_elem? slots n ≡ some slot))
  least : All (λ s. may_evict s ≡ true → older s slot ≡ false) slots
  least_best : (k : ℕ) (b : Slot) → best ≡ some (k, b) → older b slot ≡ false

skip-Picked :
    (i j : ℕ) (best : Option (ℕ × Slot)) (s : Slot) (slots : List Slot)
    → may_evict s ≡ false
    → Picked (suc i) j best slots
    → Picked i j best (s ∷ slots)
skip-Picked i j best s slots no_evict p = record {
  slot = p.slot;
  evictable = p.evictable;
  place = elim p.place [ inl e ↦ inl e | inr (n, e, at) ↦ inr (suc n, omega arith, at) ];
  least = (λ e. absurd (ground arith), p.least);
  least_best = p.least_best;
}

take-Picked :
    (i j : ℕ) (best : Option (ℕ × Slot)) (s : Slot) (slots : List Slot)
    → ((k : ℕ) (b : Slot) → best ≡ some (k, b) → older s b ≡ true)
    → Picked (suc i) j (some (i, s)) slots
    → Picked i j best (s ∷ slots)
take-Picked i j best s slots first p = record {
  slot = p.slot;
  evictable = p.evictable;
  place = elim p.place [
    | inl e ↦ inr (0, ground arith, ground arith)
    | inr (n, e, at) ↦ inr (suc n, omega arith, at)
  ];
  least = (λ _. p.least_best i s refl, p.least);
  least_best = λ k b e. older_before s b p.slot (first k b e) (p.least_best i s refl);
}

keep-Picked :
    (i j k : ℕ) (b s : Slot) (slots : List Slot)
    → older s b ≡ false
    → Picked (suc i) j (some (k, b)) slots
    → Picked i j (some (k, b)) (s ∷ slots)
keep-Picked i j k b s slots later p = record {
  slot = p.slot;
  evictable = p.evictable;
  place = elim p.place [ inl e ↦ inl e | inr (n, e, at) ↦ inr (suc n, omega arith, at) ];
  least = (λ _. older_trans s b p.slot later (p.least_best k b refl), p.least);
  least_best = p.least_best;
}

one_evictable :
    (i : ℕ) (s : Slot)
    → may_evict s ≡ true
    → (k : ℕ) (b : Slot) → ◌≡◌ {A = Option (ℕ × Slot)} (some (i, s)) (some (k, b))
    → may_evict b ≡ true
one_evictable i s can k b e = let same : s ≡ b = ground arith in rw (← same) can

evict_from-Picked :
    (i j : ℕ) (best : Option (ℕ × Slot)) (slots : List Slot)
    → ((k : ℕ) (b : Slot) → best ≡ some (k, b) → may_evict b ≡ true)
    → evict_from i best slots ≡ some j
    → Picked i j best slots
unfolding evict_from better
evict_from-Picked i j none [] h e = absurd (ground arith)
evict_from-Picked i j (some (k, b)) [] h e = record {
  slot = b;
  evictable = h k b refl;
  place = inl (ground arith);
  least = tt;
  least_best = λ k' b' e'. let same : b ≡ b' = ground arith in rw (← same) (older_irrefl b);
}
evict_from-Picked i j none (s ∷ slots) h e = elim (Bool-cases (may_evict s)) [
  | inr no_evict ↦
      skip-Picked i j none s slots no_evict
        (evict_from-Picked (suc i) j none slots h (rw no_evict at e))
  | inl can ↦
      take-Picked i j none s slots (λ k b e'. absurd (ground arith))
        (evict_from-Picked (suc i) j (some (i, s)) slots (one_evictable i s can) (rw can at e))
]
evict_from-Picked i j (some (k, b)) (s ∷ slots) h e = elim (Bool-cases (may_evict s)) [
  | inr no_evict ↦
      skip-Picked i j _ s slots no_evict
        (evict_from-Picked (suc i) j (some (k, b)) slots h (rw no_evict at e))
  | inl can ↦ elim (Bool-cases (older s b)) [
    | inl first ↦
        take-Picked i j _ s slots
          (λ k' b' e'. let same : b ≡ b' = ground arith in rw (← same) first)
          (evict_from-Picked (suc i) j (some (i, s)) slots (one_evictable i s can)
            (rw (can, first) at e))
    | inr later ↦
        keep-Picked i j k b s slots later
          (evict_from-Picked (suc i) j (some (k, b)) slots h (rw (can, later) at e))
  ]
]

evict_from-ne-none :
    (i k : ℕ) (b : Slot) (slots : List Slot) → evict_from i (some (k, b)) slots ≢ none
unfolding evict_from better
evict_from-ne-none i k b [] e = absurd (ground arith)
evict_from-ne-none i k b (s ∷ slots) e = elim (Bool-cases (may_evict s)) [
  | inr no_evict ↦ evict_from-ne-none (suc i) k b slots (rw no_evict at e)
  | inl can ↦ elim (Bool-cases (older s b)) [
    | inl first ↦ evict_from-ne-none (suc i) i s slots (rw (can, first) at e)
    | inr later ↦ evict_from-ne-none (suc i) k b slots (rw (can, later) at e)
  ]
]

evict_from-none :
    (i : ℕ) (slots : List Slot)
    → evict_from i none slots ≡ none
    → All (λ s. may_evict s ≡ false) slots
unfolding evict_from better
evict_from-none i [] e = tt
evict_from-none i (s ∷ slots) e = elim (Bool-cases (may_evict s)) [
  | inr no_evict ↦ (no_evict, evict_from-none (suc i) slots (rw no_evict at e))
  | inl can ↦ absurd (evict_from-ne-none (suc i) i s slots (rw can at e))
]

-- The candidate is a slot that is occupied and not running, and no such slot comes before it in the
-- order of preload and last use.
pub evict_candidate_index-some :
    (slots : List Slot) (j : ℕ)
    → evict_candidate_index slots ≡ some j
    → (slot : Slot) × (get_elem? slots j ≡ some slot)
      × (may_evict slot ≡ true)
      × All (λ s. may_evict s ≡ true → older s slot ≡ false) slots
unfolding evict_candidate_index
evict_candidate_index-some slots j e =
    let p : Picked 0 j none slots =
      evict_from-Picked 0 j none slots (λ k b e'. absurd (ground arith)) e in
    elim p.place [
      | inl e' ↦ absurd (ground arith)
      | inr (n, at, here) ↦
          let same : n ≡ j = omega arith in
          (p.slot, subst (λ k. get_elem? slots k ≡ some p.slot) same here, p.evictable, p.least)
    ]

-- There is no candidate only if every slot is free or running.
pub evict_candidate_index-none :
    (slots : List Slot) → evict_candidate_index slots ≡ none → All (λ s. may_evict s ≡ false) slots
unfolding evict_candidate_index
evict_candidate_index-none slots e = evict_from-none 0 slots e
