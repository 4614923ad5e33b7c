-- ===== src/Vm/Cache/Holders.antt =====
-- compiler/rust/crates/squidvm-core/src/chunk.rs: how many slots hold a chunk, and how many of them
-- are running it.
use squid_script.Base.{
  ℕ, ◌+◌, ◌≤◌, ◌≡◌, refl, true, false, ◌&&◌, List, [], ◌∷◌, All, ltb, ◌==◌, if◌then◌else◌, arith,
  map, bool_num,
}
use squid_script.Vm.Cache.{
  ChunkKind, handler, function, screen, ChunkRef, Slot, kind_eq, chunk_eq, is_for, any_for,
  drop_slot,
}
use squid_script.Vm.Cache.Swap.{Swap, here, there}

kind_eq→eq : (a b : ChunkKind) → kind_eq a b ≡ true → a ≡ b
kind_eq→eq handler handler h = refl
kind_eq→eq function function h = refl
kind_eq→eq screen screen h = refl
kind_eq→eq _ _ h = cc

kind_eq_refl : (a : ChunkKind) → kind_eq a a ≡ true
kind_eq_refl handler = refl
kind_eq_refl _ = refl

pub chunk_eq_refl : (a : ChunkRef) → chunk_eq a a ≡ true
unfolding chunk_eq
chunk_eq_refl a = ground (arith, kind_eq_refl a.kind)

pub chunk_eq→eq : (a b : ChunkRef) → chunk_eq a b ≡ true → a ≡ b
unfolding chunk_eq
chunk_eq→eq a b h = ground (arith, kind_eq→eq a.kind b.kind)

-- The slots that hold the chunk.
unfoldable pub holders : ChunkRef → List Slot → ℕ
holders key [] = 0
holders key (s ∷ slots) = bool_num (is_for key s) + holders key slots

-- Those among them that are marked as running.
unfoldable pub runners : ChunkRef → List Slot → ℕ
runners key [] = 0
runners key (s ∷ slots) = bool_num (is_for key s && s.active) + runners key slots

pub holders-Swap :
    (key : ChunkRef) {old new : Slot} {slots slots' : List Slot}
    → Swap old new slots slots'
    → holders key slots' + bool_num (is_for key old) ≡ holders key slots + bool_num (is_for key new)
unfolding holders
holders-Swap key (here slots) = omega arith
holders-Swap key (there s swap) = omega (arith, holders-Swap key swap)

pub new-Swap :
    (key : ChunkRef) {old new : Slot} {slots slots' : List Slot}
    → Swap old new slots slots'
    → bool_num (is_for key new) ≤ holders key slots'
unfolding holders
new-Swap key (here slots) = omega arith
new-Swap key (there s swap) = omega (arith, new-Swap key swap)

pub old-Swap :
    (key : ChunkRef) {old new : Slot} {slots slots' : List Slot}
    → Swap old new slots slots'
    → bool_num (is_for key old) ≤ holders key slots
unfolding holders
old-Swap key (here slots) = omega arith
old-Swap key (there s swap) = omega (arith, old-Swap key swap)

pub runners-Swap :
    (key : ChunkRef) {old new : Slot} {slots slots' : List Slot}
    → Swap old new slots slots'
    → runners key slots' + bool_num (is_for key old && old.active)
      ≡ runners key slots + bool_num (is_for key new && new.active)
unfolding runners
runners-Swap key (here slots) = omega arith
runners-Swap key (there s swap) = omega (arith, runners-Swap key swap)

pub holders-none :
    (key : ChunkRef) (slots : List Slot)
    → All (λ s. is_for key s ≡ false) slots
    → holders key slots ≡ 0
unfolding holders
holders-none key [] h = refl
holders-none key (s ∷ slots) (hs, h) = ground (arith, holders-none key slots h)

pub any_for-holders :
    (key : ChunkRef) (slots : List Slot) → any_for key slots ≡ ltb 0 (holders key slots)
unfolding any_for holders
any_for-holders key [] = refl
any_for-holders key (s ∷ slots) = ground (arith, any_for-holders key slots)

pub holders-drop_app :
    (app : ℕ) (key : ChunkRef) (slots : List Slot)
    → holders key (map (drop_slot app) slots) ≡ (if key.app == app then 0 else holders key slots)
unfolding holders drop_slot is_for chunk_eq
holders-drop_app app key [] = ground arith
holders-drop_app app key (s ∷ slots) = ground (arith, holders-drop_app app key slots)
