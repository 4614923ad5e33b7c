-- ===== src/Vm/Cache/Insert.antt =====
-- compiler/rust/crates/squidvm-core/src/chunk.rs: the operations of the cache against the chunks that
-- it holds.
use squid_script.Base.{
  ◌≤◌, ◌<◌, ◌≡◌, ◌≢◌, ◌↔◌, ◌⊎◌, inl, inr, refl, sym, ap, ◌∙◌, Bool, true, false, ◌&&◌, List, [],
  ◌∷◌, All, length, arith, Bool-cases, Option-cases, ok, err,
}
use squid_script.Vm.Cache.{
  ChunkRef, Slot, ChunkCache, full, is_for, update_first, may_evict, evict_candidate_index, tick,
  loaded, free, insert, contains,
}
use squid_script.Vm.Cache.Swap.{
  Swap, update_first-Swap, update_first-none, set-Swap, length-Swap, All-Swap,
}
use squid_script.Vm.Cache.Holders.{
  chunk_eq_refl, chunk_eq→eq, holders, runners, holders-Swap, new-Swap, old-Swap, runners-Swap,
  holders-none, any_for-holders,
}
use squid_script.Vm.Cache.Evict.{evict_candidate_index-some, evict_candidate_index-none}

-- No chunk is held twice.
abbrev pub IsDistinct : ChunkCache → Type 0
IsDistinct c = (key : ChunkRef) → holders key c.slots ≤ 1

-- What a successful `insert` does: in the list of slots `old` gives way to `fresh`.
data Inserted (slots : List Slot) (key : ChunkRef) : List Slot → Type 0 where
  refreshed :
      (old fresh : Slot) {slots' : List Slot}
      → is_for key old ≡ true
      → (fresh.key ≡ old.key)
      → (fresh.occupied ≡ old.occupied)
      → (fresh.active ≡ old.active)
      → Swap old fresh slots slots'
      → Inserted slots key slots'
  placed :
      (old fresh : Slot) {slots' : List Slot}
      → holders key slots ≡ 0
      → fresh.key ≡ key
      → fresh.occupied ≡ true
      → fresh.active ≡ false
      → (old.occupied && old.active) ≡ false
      → Swap old fresh slots slots'
      → Inserted slots key slots'

evicted : (s : Slot) → may_evict s ≡ true → (s.occupied && s.active) ≡ false
unfolding may_evict
evicted s h = ground arith

insert-cases :
    (c : ChunkCache) (key : ChunkRef) (preload : Bool)
    → ((insert c key preload).1 ≡ ok tt) × Inserted c.slots key (insert c key preload).0.slots
      ⊎ ((insert c key preload).1 ≡ err full)
        × ((insert c key preload).0.slots ≡ c.slots)
        × (holders key c.slots ≡ 0)
        × All (λ s. free s ≡ false) c.slots
        × All (λ s. may_evict s ≡ false) c.slots
unfolding insert
insert-cases c key preload =
    let clock = tick c.clock in
    let refresh : Slot → Slot = λ s. record s { preload = preload; last_used = clock } in
    let fresh = loaded key preload clock in
    elim (Option-cases (update_first (is_for key) refresh c.slots)) [
      | inr (slots, e) ↦
          let (old, found, swap) = update_first-Swap (is_for key) refresh c.slots slots e in
          rw (e, insert) (inl (refl, refreshed old (refresh old) found refl refl refl swap))
      | inl e ↦
          let absent = update_first-none (is_for key) refresh c.slots e in
          let zero_holders = holders-none key c.slots absent in
          elim (Option-cases (update_first free (λ _. fresh) c.slots)) [
            | inr (slots, e') ↦
                let (old, found, swap) = update_first-Swap free (λ _. fresh) c.slots slots e' in
                rw (e, insert, e')
                  (inl (refl, placed old fresh zero_holders refl refl refl (ground arith) swap))
            | inl e' ↦ elim (Option-cases (evict_candidate_index c.slots)) [
              | inr (i, e'') ↦
                  let (old, at, can, _) = evict_candidate_index-some c.slots i e'' in
                  rw (e, insert, e', e'')
                    (inl (
                      refl,
                      placed old fresh zero_holders refl refl refl (evicted old can)
                          (set-Swap c.slots i old fresh at),
                    ))
              | inl e'' ↦
                  rw (e, insert, e', e'')
                    (inr (
                      refl,
                      refl,
                      zero_holders,
                      update_first-none free (λ _. fresh) c.slots e',
                      evict_candidate_index-none c.slots e'',
                    ))
            ]
          ]
    ]

-- A slot that is used again for its chunk counts as before.
is_for_same :
    (key : ChunkRef) (old fresh : Slot)
    → fresh.key ≡ old.key
    → fresh.occupied ≡ old.occupied
    → is_for key fresh ≡ is_for key old
unfolding is_for
is_for_same key old fresh k o = cc

is_for_own :
    (key : ChunkRef) (fresh : Slot)
    → fresh.key ≡ key
    → fresh.occupied ≡ true
    → is_for key fresh ≡ true
unfolding is_for
is_for_own key fresh k o = rw (o, k, chunk_eq_refl)

is_for→key : (key : ChunkRef) (s : Slot) → is_for key s ≡ true → s.key ≡ key
unfolding is_for
is_for→key key s h = chunk_eq→eq s.key key (ground arith)

idle-is_for :
    (key : ChunkRef) (s : Slot)
    → (s.occupied && s.active) ≡ false
    → (is_for key s && s.active) ≡ false
unfolding is_for
idle-is_for key s h = ground arith

holds_after :
    (slots slots' : List Slot) (key : ChunkRef) → Inserted slots key slots' → 0 < holders key slots'
holds_after slots slots' key (refreshed old fresh found k o a swap) =
    ground (arith, is_for_same key old fresh k o, new-Swap key swap)
holds_after slots slots' key (placed old fresh none_held k o a unused swap) =
    ground (arith, is_for_own key fresh k o, new-Swap key swap)

distinct_after :
    (slots slots' : List Slot) (key other : ChunkRef)
    → Inserted slots key slots'
    → holders other slots ≤ 1
    → holders other slots' ≤ 1
distinct_after slots slots' key other (refreshed old fresh found k o a swap) h =
    ground (arith, is_for_same other old fresh k o, holders-Swap other swap)
distinct_after slots slots' key other (placed old fresh none_held k o a unused swap) h =
    elim (Bool-cases (is_for other fresh)) [
      | inl own ↦
          let same : other ≡ key = sym (is_for→key other fresh own) ∙ k in
          let absent : holders other slots ≡ 0 = rw same none_held in
          ground (arith, holders-Swap other swap)
      | inr foreign ↦ ground (arith, holders-Swap other swap)
    ]

runners_after :
    (slots slots' : List Slot) (key other : ChunkRef)
    → Inserted slots key slots'
    → runners other slots' ≡ runners other slots
runners_after slots slots' key other (refreshed old fresh found k o a swap) =
    ground (arith, is_for_same other old fresh k o, runners-Swap other swap)
runners_after slots slots' key other (placed old fresh none_held k o a unused swap) =
    ground (arith, idle-is_for other old unused, runners-Swap other swap)

size_after :
    (slots slots' : List Slot) (key : ChunkRef)
    → Inserted slots key slots'
    → length slots' ≡ length slots
size_after slots slots' key (refreshed old fresh found k o a swap) = length-Swap swap
size_after slots slots' key (placed old fresh none_held k o a unused swap) = length-Swap swap

every_running :
    (slots : List Slot)
    → All (λ s. free s ≡ false) slots
    → All (λ s. may_evict s ≡ false) slots
    → All (λ s. (s.occupied && s.active) ≡ true) slots
unfolding may_evict
every_running [] taken busy = tt
every_running (s ∷ slots) (t, taken) (b, busy) = (ground arith, every_running slots taken busy)

no_room :
    (slots slots' : List Slot) (key : ChunkRef)
    → Inserted slots key slots'
    → holders key slots ≡ 0
    → All (λ s. (s.occupied && s.active) ≡ true) slots
    → ⊥
no_room slots slots' key (refreshed old fresh found k o a swap) absent busy =
    ground (arith, old-Swap key swap)
no_room slots slots' key (placed old fresh none_held k o a unused swap) absent busy =
    let running = All-Swap (λ s. (s.occupied && s.active) ≡ true) swap busy in cc

-- `insert` fails exactly when the chunk is not held and every slot is running some other chunk; if it
-- succeeds the cache holds the chunk. In either case no chunk is held twice if none was before, the
-- number of slots stays, and the slots that run a chunk are as many as before, for every chunk: what
-- is running is never evicted.
pub insert_lem :
    (c : ChunkCache) (key : ChunkRef) (preload : Bool)
    → IsDistinct c
    → (((insert c key preload).1 ≡ err full)
        ↔ ((contains c key ≡ false) × All (λ s. (s.occupied && s.active) ≡ true) c.slots))
      × ((insert c key preload).1 ≢ err full
          → ((insert c key preload).1 ≡ ok tt) × (contains (insert c key preload).0 key ≡ true))
      × IsDistinct (insert c key preload).0
      × (length (insert c key preload).0.slots ≡ length c.slots)
      × ((other : ChunkRef) → runners other (insert c key preload).0.slots ≡ runners other c.slots)
unfolding contains
insert_lem c key preload d = elim (insert-cases c key preload) [
  | inl (done, ins) ↦ (
    (
      λ e. cc,
      λ (absent, busy).
          absurd (no_room c.slots _ key ins (ground (arith, any_for-holders key c.slots)) busy),
    ),
    (λ e. (done, any_for-holders key _ ∙ ground (arith, holds_after c.slots _ key ins))),
    (λ other. distinct_after c.slots _ key other ins (d other)),
    size_after c.slots _ key ins,
    (λ other. runners_after c.slots _ key other ins),
  )
  | inr (failed, same, absent, taken, busy) ↦ (
    (
      λ e. (any_for-holders key c.slots ∙ ground arith, every_running c.slots taken busy),
      λ _. failed,
    ),
    (λ e. absurd (e failed)),
    (λ other. rw same (d other)),
    ap length same,
    (λ other. ap (runners other) same),
  )
]
