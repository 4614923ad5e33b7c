-- ===== src/Vm/Cache/Running.antt =====
-- compiler/rust/crates/squidvm-core/src/chunk.rs: which chunks are marked as running, and what
-- `drop_app` leaves.
use squid_script.Base.{
  ℕ, zero, suc, ◌+◌, ◌≤◌, ◌<◌, ◌≡◌, ◌≢◌, ◌↔◌, ◌⊎◌, inl, inr, refl, sym, ap, ◌∙◌, Bool, true, false,
  ◌&&◌, List, [], ◌∷◌, map, ltb, ◌==◌, if◌then◌else◌, arith, bool_num, Option-cases, ok, err,
}
use squid_script.Vm.Cache.{
  ChunkRef, Slot, ChunkCache, missing, is_for, update_first, tick, begin_execute, end_execute,
  any_for, contains, drop_slot, drop_app, new,
}
use squid_script.Vm.Cache.Swap.{Swap, here, there, update_first-Swap, update_first-none}
use squid_script.Vm.Cache.Holders.{
  holders, runners, holders-Swap, old-Swap, runners-Swap, holders-none, any_for-holders,
  holders-drop_app,
}
use squid_script.Vm.Cache.Insert.{IsDistinct}

runners_le_holders : (key : ChunkRef) (slots : List Slot) → runners key slots ≤ holders key slots
unfolding runners holders
runners_le_holders key [] = omega arith
runners_le_holders key (s ∷ slots) = ground (arith, runners_le_holders key slots)

-- The other slots run the chunk no more often than they hold it.
others_le :
    (key : ChunkRef) {old new : Slot} {slots slots' : List Slot}
    → Swap old new slots slots'
    → runners key slots + bool_num (is_for key old)
      ≤ holders key slots + bool_num (is_for key old && old.active)
unfolding runners holders
others_le key (here slots) = omega (arith, runners_le_holders key slots)
others_le key (there s swap) = ground (arith, others_le key swap)

new_le :
    (key : ChunkRef) {old new : Slot} {slots slots' : List Slot}
    → Swap old new slots slots'
    → bool_num (is_for key new && new.active) ≤ runners key slots'
unfolding runners
new_le key (here slots) = omega arith
new_le key (there s swap) = omega (arith, new_le key swap)

-- The slots after one of the chunk's slots has been marked.
data Marked (slots : List Slot) (key : ChunkRef) (active : Bool) : List Slot → Type 0 where
  marked :
      (old fresh : Slot) {slots' : List Slot}
      → is_for key old ≡ true
      → ((other : ChunkRef) → is_for other fresh ≡ is_for other old)
      → fresh.active ≡ active
      → Swap old fresh slots slots'
      → Marked slots key active slots'

holders-Marked :
    {slots slots' : List Slot} (key other : ChunkRef) (active : Bool)
    → Marked slots key active slots'
    → holders other slots' ≡ holders other slots
holders-Marked key other active (marked old fresh found same a swap) =
    ground (arith, same other, holders-Swap other swap)

runners-Marked :
    {slots slots' : List Slot} (key : ChunkRef) (active : Bool)
    → Marked slots key active slots'
    → holders key slots ≤ 1
    → runners key slots' ≡ bool_num active
runners-Marked key active (marked old fresh found same a swap) distinct =
    ground (arith, same key, runners-Swap key swap, others_le key swap, new_le key swap)

begin_execute-cases :
    (c : ChunkCache) (key : ChunkRef)
    → ((begin_execute c key).1 ≡ ok tt)
        × (0 < holders key c.slots)
        × Marked c.slots key true (begin_execute c key).0.slots
      ⊎ ((begin_execute c key).1 ≡ err missing)
        × (holders key c.slots ≡ 0)
        × ((begin_execute c key).0.slots ≡ c.slots)
unfolding begin_execute is_for
begin_execute-cases c key =
    let active : Slot → Slot = λ s. record s { active = true; last_used = tick c.clock } in
    elim (Option-cases (update_first (is_for key) active c.slots)) [
      | inl e ↦
          rw (e, begin_execute)
            (inr (
              refl,
              holders-none key c.slots (update_first-none (is_for key) active c.slots e),
              refl,
            ))
      | inr (slots, e) ↦
          let (old, found, swap) = update_first-Swap (is_for key) active c.slots slots e in
          rw (e, begin_execute)
            (inl (
              refl,
              ground (arith, old-Swap key swap),
              marked old (active old) found (λ other. refl) refl swap,
            ))
    ]

end_execute-cases :
    (c : ChunkCache) (key : ChunkRef)
    → ((end_execute c key).1 ≡ ok tt)
        × (0 < holders key c.slots)
        × Marked c.slots key false (end_execute c key).0.slots
      ⊎ ((end_execute c key).1 ≡ err missing)
        × (holders key c.slots ≡ 0)
        × ((end_execute c key).0.slots ≡ c.slots)
unfolding end_execute is_for
end_execute-cases c key =
    let idle : Slot → Slot = λ s. record s { active = false } in
    elim (Option-cases (update_first (is_for key) idle c.slots)) [
      | inl e ↦
          rw (e, end_execute)
            (inr (
              refl,
              holders-none key c.slots (update_first-none (is_for key) idle c.slots e),
              refl,
            ))
      | inr (slots, e) ↦
          let (old, found, swap) = update_first-Swap (is_for key) idle c.slots slots e in
          rw (e, end_execute)
            (inl (
              refl,
              ground (arith, old-Swap key swap),
              marked old (idle old) found (λ other. refl) refl swap,
            ))
    ]

-- In a cache without duplicates, `begin_execute` succeeds exactly if the cache holds the chunk, and
-- then marks it as running; it never changes which chunks are held.
pub begin_execute_lem :
    (c : ChunkCache) (key : ChunkRef)
    → IsDistinct c
    → (((begin_execute c key).1 ≡ err missing) ↔ (contains c key ≡ false))
      × ((begin_execute c key).1 ≢ err missing
          → ((begin_execute c key).1 ≡ ok tt) × (runners key (begin_execute c key).0.slots ≡ 1))
      × ((other : ChunkRef) → contains (begin_execute c key).0 other ≡ contains c other)
unfolding contains
begin_execute_lem c key d = elim (begin_execute-cases c key) [
  | inl (done, held, m) ↦ (
    (
      λ e. absurd (ground (arith, done, e)),
      λ e. absurd (ground (arith, any_for-holders key c.slots)),
    ),
    (λ _. (done, runners-Marked key true m (d key))),
    (λ other.
        any_for-holders other _
        ∙ ap (ltb 0) (holders-Marked key other true m)
        ∙ sym (any_for-holders other c.slots)),
  )
  | inr (failed, absent, same) ↦ (
    (λ e. any_for-holders key c.slots ∙ ground arith, λ _. failed),
    (λ e. absurd (e failed)),
    (λ other. ap (any_for other) same),
  )
]

-- In a cache without duplicates, `end_execute` succeeds exactly if the cache holds the chunk, and then
-- no slot runs it; it never changes which chunks are held.
pub end_execute_lem :
    (c : ChunkCache) (key : ChunkRef)
    → IsDistinct c
    → (((end_execute c key).1 ≡ err missing) ↔ (contains c key ≡ false))
      × ((end_execute c key).1 ≢ err missing
          → ((end_execute c key).1 ≡ ok tt) × (runners key (end_execute c key).0.slots ≡ 0))
      × ((other : ChunkRef) → contains (end_execute c key).0 other ≡ contains c other)
unfolding contains
end_execute_lem c key d = elim (end_execute-cases c key) [
  | inl (done, held, m) ↦ (
    (
      λ e. absurd (ground (arith, done, e)),
      λ e. absurd (ground (arith, any_for-holders key c.slots)),
    ),
    (λ _. (done, runners-Marked key false m (d key))),
    (λ other.
        any_for-holders other _
        ∙ ap (ltb 0) (holders-Marked key other false m)
        ∙ sym (any_for-holders other c.slots)),
  )
  | inr (failed, absent, same) ↦ (
    (λ e. any_for-holders key c.slots ∙ ground arith, λ _. failed),
    (λ e. absurd (e failed)),
    (λ other. ap (any_for other) same),
  )
]

-- `drop_app` removes the chunks of the app and keeps every other chunk.
pub contains-drop_app :
    (c : ChunkCache) (app : ℕ) (key : ChunkRef)
    → contains (drop_app c app) key ≡ (if key.app == app then false else contains c key)
unfolding contains drop_app
contains-drop_app c app key = ground (
  arith,
  any_for-holders key (map (drop_slot app) c.slots),
  any_for-holders key c.slots,
  holders-drop_app app key c.slots,
)

pub new-IsDistinct : (n : ℕ) → IsDistinct (new n)
unfolding holders is_for
new-IsDistinct zero key = omega arith
new-IsDistinct (suc n) key = omega (arith, new-IsDistinct n key)
