-- ===== src/Vm/Cache/Swap.antt =====
-- compiler/rust/crates/squidvm-core/src/chunk.rs: what `update_first` and a write at an index do to the
-- slots: one slot is exchanged.
use squid_script.Base.{
  ℕ, zero, suc, ◌≡◌, refl, ap, subst, Bool, true, false, Option, none, some, List, [], ◌∷◌, set,
  get_elem?, All, length, arith,
}
use squid_script.Vm.Cache.{Slot, update_first}

-- `old` stands where `new` stands in the other list, and all else is the same.
pub data Swap (old new : Slot) : List Slot → List Slot → Type 0 where
  here : (slots : List Slot) → Swap old new (old ∷ slots) (new ∷ slots)
  there :
      (s : Slot) {slots slots' : List Slot}
      → Swap old new slots slots'
      → Swap old new (s ∷ slots) (s ∷ slots')

pub update_first-Swap :
    (p : Slot → Bool) (f : Slot → Slot) (slots slots' : List Slot)
    → update_first p f slots ≡ some slots'
    → (old : Slot) × (p old ≡ true) × Swap old (f old) slots slots'
unfolding update_first
update_first-Swap p f [] slots' e = cc
update_first-Swap p f (s ∷ slots) slots' e =
    go (p s) refl (update_first p f slots) refl (update_first-Swap p f slots)
  where
    go :
        (b : Bool)
        → p s ≡ b
        → (o : Option (List Slot)) → update_first p f slots ≡ o
        → ((rest : List Slot)
            → update_first p f slots ≡ some rest
            → (old : Slot) × (p old ≡ true) × Swap old (f old) slots rest)
        → (old : Slot) × (p old ≡ true) × Swap old (f old) (s ∷ slots) slots'
    go true ps o u ih =
        let eq : (f s ∷ slots) ≡ slots' = ground arith in
        (s, ps, subst (λ t. Swap s (f s) (s ∷ slots) t) eq (here slots))
    go false ps none u ih = absurd (ground arith)
    go false ps (some rest) u ih =
        let eq : (s ∷ rest) ≡ slots' = ground arith in
        let (old, found, swap) = ih rest u in
        (old, found, subst (λ t. Swap old (f old) (s ∷ slots) t) eq (there s swap))

-- A search that finds nothing has passed every slot.
pub update_first-none :
    (p : Slot → Bool) (f : Slot → Slot) (slots : List Slot)
    → update_first p f slots ≡ none
    → All (λ s. p s ≡ false) slots
unfolding update_first
update_first-none p f [] e = tt
update_first-none p f (s ∷ slots) e = (ground arith, update_first-none p f slots (ground arith))

pub All-update_first :
    (p : Slot → Bool) (f : Slot → Slot) (slots : List Slot)
    → All (λ s. p s ≡ false) slots
    → update_first p f slots ≡ none
unfolding update_first
All-update_first p f [] h = refl
All-update_first p f (s ∷ slots) (hs, h) = rw (hs, update_first, All-update_first p f slots h)

pub set-Swap :
    (slots : List Slot) (i : ℕ) (old new : Slot)
    → get_elem? slots i ≡ some old
    → Swap old new slots (set slots i new)
set-Swap [] i old new h = absurd (ground arith)
set-Swap (s ∷ slots) zero old new h =
    let eq : s ≡ old = ground arith in
    subst (λ t. Swap t new (s ∷ slots) (new ∷ slots)) eq (here slots)
set-Swap (s ∷ slots) (suc i) old new h = there s (set-Swap slots i old new h)

pub length-Swap :
    {old new : Slot} {slots slots' : List Slot}
    → Swap old new slots slots'
    → length slots' ≡ length slots
length-Swap (here slots) = refl
length-Swap (there s swap) = ap suc (length-Swap swap)

pub All-Swap {κ} :
    (P : Slot → Type κ) {old new : Slot} {slots slots' : List Slot}
    → Swap old new slots slots'
    → All P slots
    → P old
All-Swap P (here slots) h = h.0
All-Swap P (there s swap) h = All-Swap P swap h.1
