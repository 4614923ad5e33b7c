-- ===== src/Vm/Cache/Tests.antt =====
-- compiler/rust/crates/squidvm-core/src/chunk.rs: the theorems on the cache at concrete inputs.
use squid_script.Base.{
  ◌≡◌, ◌≢◌, ◌↔◌, refl, true, false, ◌&&◌, some, List, [], ◌∷◌, All, length, get_elem?, ◌==◌,
  if◌then◌else◌, ok, err,
}
use squid_script.Vm.Cache.{
  ChunkRef, ChunkCache, Slot, handler, function, full, missing, new, may_evict, older, better,
  evict_candidate_index, loaded, insert, begin_execute, end_execute, contains, drop_app,
}
use squid_script.Vm.Cache.Holders.{runners}
use squid_script.Vm.Cache.Evict.{evict_candidate_index-some}
use squid_script.Vm.Cache.Insert.{IsDistinct, insert_lem}
use squid_script.Vm.Cache.Running.{
  new-IsDistinct, begin_execute_lem, end_execute_lem, contains-drop_app,
}

abbrev first : ChunkRef
first = record { app = 1; kind = handler; index = 0 }

abbrev second : ChunkRef
second = record { app = 1; kind = function; index = 4 }

-- A cache of two slots after one insertion.
one_held : ChunkCache
one_held = (insert (new 2) first true).0

insert_lem_example :
    (((insert (new 2) first true).1 ≡ err full) ↔ (
      (contains (new 2) first ≡ false) × All (λ s. (s.occupied && s.active) ≡ true) (new 2).slots))
    × ((insert (new 2) first true).1 ≢ err full
        → ((insert (new 2) first true).1 ≡ ok tt)
          × (contains (insert (new 2) first true).0 first ≡ true))
    × IsDistinct (insert (new 2) first true).0
    × (length (insert (new 2) first true).0.slots ≡ length (new 2).slots)
    × ((other : ChunkRef)
        → runners other (insert (new 2) first true).0.slots ≡ runners other (new 2).slots)
insert_lem_example = insert_lem (new 2) first true (new-IsDistinct 2)

one_held-IsDistinct : IsDistinct one_held
unfolding one_held
one_held-IsDistinct = let (_, _, d, _, _) = insert_lem (new 2) first true (new-IsDistinct 2) in d

begin_execute_lem_example :
    (((begin_execute one_held first).1 ≡ err missing) ↔ (contains one_held first ≡ false))
    × ((begin_execute one_held first).1 ≢ err missing
        → ((begin_execute one_held first).1 ≡ ok tt)
          × (runners first (begin_execute one_held first).0.slots ≡ 1))
    × ((other : ChunkRef)
        → contains (begin_execute one_held first).0 other ≡ contains one_held other)
begin_execute_lem_example = begin_execute_lem one_held first one_held-IsDistinct

end_execute_lem_example :
    (((end_execute one_held second).1 ≡ err missing) ↔ (contains one_held second ≡ false))
    × ((end_execute one_held second).1 ≢ err missing
        → ((end_execute one_held second).1 ≡ ok tt)
          × (runners second (end_execute one_held second).0.slots ≡ 0))
    × ((other : ChunkRef)
        → contains (end_execute one_held second).0 other ≡ contains one_held other)
end_execute_lem_example = end_execute_lem one_held second one_held-IsDistinct

contains-drop_app_example :
    contains (drop_app one_held 1) first
    ≡ (if first.app == 1 then false else contains one_held first)
contains-drop_app_example = contains-drop_app one_held 1 first

-- The chunk that was not preloaded goes first, though it was used later.
abbrev two_slots : List Slot
two_slots = loaded first true 3 ∷ loaded second false 5 ∷ []

second_goes : evict_candidate_index two_slots ≡ some 1
unfolding evict_candidate_index may_evict older better
second_goes = refl

evict_candidate_index-some_example :
    (slot : Slot) × (get_elem? two_slots 1 ≡ some slot)
    × (may_evict slot ≡ true)
    × All (λ s. may_evict s ≡ true → older s slot ≡ false) two_slots
evict_candidate_index-some_example = evict_candidate_index-some two_slots 1 second_goes
