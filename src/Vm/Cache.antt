-- ===== src/Vm/Cache.antt =====
-- compiler/rust/crates/squidvm-core/src/chunk.rs: the cache of code chunks. `[ChunkCacheSlot; N]` is a
-- list, `iter_mut().find(p)` followed by a write is `update_first`, and `clock` wraps at 32 bits.

pub mod Swap
pub mod Holders
pub mod Evict
pub mod Insert
pub mod Running
mod Tests
use mathlib.Core.Option
use squid_script.Base.{
  ℕ, suc, ◌+◌, ◌%◌, ◌^◌, Bool, true, false, not, ◌&&◌, Option, none, some, List, [], ◌∷◌, map,
  replicate, set, ltb, ◌==◌, if◌then◌else◌, Result, ok, err,
}

pub data ChunkKind : Type 0 where
  handler function screen : ChunkKind

pub record ChunkRef : Type 0 where
  pub app : ℕ
  pub kind : ChunkKind
  pub index : ℕ

pub record Slot : Type 0 where
  pub key : ChunkRef
  pub preload : Bool
  pub active : Bool
  pub last_used : ℕ
  pub occupied : Bool

-- `ChunkCacheSlot::empty`
abbrev pub empty_slot : Slot
empty_slot = record {
  key = record { app = 0; kind = handler; index = 0 };
  preload = false;
  active = false;
  last_used = 0;
  occupied = false;
}

pub data ChunkCacheError : Type 0 where
  full missing : ChunkCacheError

pub record ChunkCache : Type 0 where
  pub slots : List Slot
  pub clock : ℕ

-- `ChunkCache::<N>::new`
abbrev pub new : ℕ → ChunkCache
new n = record { slots = replicate n empty_slot; clock = 0 }

abbrev pub kind_eq : ChunkKind → ChunkKind → Bool
kind_eq handler handler = true
kind_eq function function = true
kind_eq screen screen = true
kind_eq _ _ = false

-- The derived `==` of `ChunkRef`.
unfoldable pub chunk_eq : ChunkRef → ChunkRef → Bool
chunk_eq a b = a.app == b.app && kind_eq a.kind b.kind && a.index == b.index

-- `slot.occupied && slot.key == key`
unfoldable pub is_for : ChunkRef → Slot → Bool
is_for key slot = slot.occupied && chunk_eq slot.key key

-- The first element that passes the test is replaced; `none` if there is none.
unfoldable pub update_first : (Slot → Bool) → (Slot → Slot) → List Slot → Option (List Slot)
update_first p f [] = none
update_first p f (s ∷ slots) = elim (p s) [
  | true ↦ some (f s ∷ slots)
  | false ↦ elim (update_first p f slots) [ none ↦ none | some slots' ↦ some (s ∷ slots') ]
]

-- `filter(|(_, slot)| slot.occupied && !slot.active)`
unfoldable pub may_evict : Slot → Bool
may_evict slot = slot.occupied && not slot.active

-- `(preload, last_used)` in lexicographic order, `false` before `true`.
unfoldable pub older : Slot → Slot → Bool
older a b = elim a.preload [
  | true ↦ b.preload && ltb a.last_used b.last_used
  | false ↦ elim b.preload [ true ↦ true | false ↦ ltb a.last_used b.last_used ]
]

-- `min_by_key` keeps the first of equal elements.
unfoldable pub better : Option (ℕ × Slot) → ℕ → Slot → Option (ℕ × Slot)
better none i slot = some (i, slot)
better (some (j, best)) i slot = if older slot best then some (i, slot) else some (j, best)

-- The search over the slots from index `i` on, with the best found so far.
unfoldable pub evict_from : ℕ → Option (ℕ × Slot) → List Slot → Option ℕ
evict_from i best [] = Option.map (λ p. p.0) best
evict_from i best (slot ∷ slots) =
    evict_from (suc i) (if may_evict slot then better best i slot else best) slots

unfoldable pub evict_candidate_index : List Slot → Option ℕ
unfolding evict_from
evict_candidate_index slots = evict_from 0 none slots

abbrev pub tick : ℕ → ℕ
tick clock = (clock + 1) % 2 ^ 32

-- The slot of a chunk that has just been loaded.
abbrev pub loaded : ChunkRef → Bool → ℕ → Slot
loaded key preload clock = record {
  key = key;
  preload = preload;
  active = false;
  last_used = clock;
  occupied = true;
}

abbrev pub free : Slot → Bool
free slot = not slot.occupied

unfoldable pub insert :
    ChunkCache → ChunkRef → Bool → ChunkCache × Result ChunkCacheError (Unit {0})
insert c key preload =
    let clock = tick c.clock in
    let fresh = loaded key preload clock in
    elim (update_first (is_for key) (λ s. record s { preload = preload; last_used = clock })
      c.slots) [
        | some slots ↦ (record { slots = slots; clock = clock }, ok tt)
        | none ↦ elim (update_first free (λ _. fresh) c.slots) [
          | some slots ↦ (record { slots = slots; clock = clock }, ok tt)
          | none ↦ elim (evict_candidate_index c.slots) [
            | none ↦ (record c { clock = clock }, err full)
            | some i ↦ (record { slots = set c.slots i fresh; clock = clock }, ok tt)
          ]
        ]
      ]

unfoldable pub begin_execute :
    ChunkCache → ChunkRef → ChunkCache × Result ChunkCacheError (Unit {0})
begin_execute c key =
    let clock = tick c.clock in
    elim (update_first (is_for key) (λ s. record s { active = true; last_used = clock }) c.slots) [
      | some slots ↦ (record { slots = slots; clock = clock }, ok tt)
      | none ↦ (record c { clock = clock }, err missing)
    ]

unfoldable pub end_execute : ChunkCache → ChunkRef → ChunkCache × Result ChunkCacheError (Unit {0})
end_execute c key = elim (update_first (is_for key) (λ s. record s { active = false }) c.slots) [
  | some slots ↦ (record c { slots = slots }, ok tt)
  | none ↦ (c, err missing)
]

unfoldable pub any_for : ChunkRef → List Slot → Bool
any_for key [] = false
any_for key (s ∷ slots) = elim (is_for key s) [ true ↦ true | false ↦ any_for key slots ]

unfoldable pub contains : ChunkCache → ChunkRef → Bool
unfolding any_for
contains c key = any_for key c.slots

unfoldable pub drop_slot : ℕ → Slot → Slot
drop_slot app slot = if slot.occupied && slot.key.app == app then empty_slot else slot

unfoldable pub drop_app : ChunkCache → ℕ → ChunkCache
drop_app c app = record c { slots = map (drop_slot app) c.slots }
