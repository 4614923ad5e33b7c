-- ===== src/Vm/ProgramIndex/Pool.antt =====
-- compiler/rust/crates/squidvm-core/src/program.rs: the strings of an index, which lie in a pool.
use squid_script.Base.{
  ℕ, zero, suc, ◌+◌, ◌-◌, ◌≤◌, ◌<◌, ◌≡◌, refl, sym, ap, subst, ◌∙◌, true, ◌&&◌, List, [], ◌∷◌, ◌++◌,
  All, length, length-append, append_assoc, replicate, slice, slice-append, take-append, ltb, leb,
  ◌==◌, Bool-cases, inl, inr, lt→ltb, ltb→lt, Result, ok, >>=-eq-ok, guard, guard-eq-ok, index,
  arith,
}
use squid_script.Base.Utf8.{is_utf8}
use squid_script.Vm.Limits.{max_strings, max_program_string_bytes}
use squid_script.Vm.Values.{VmError, invalid_section, invalid_utf8, too_many_strings, read_u16}
use squid_script.Vm.Sqbc.{checked_end, get_range}
use squid_script.Vm.Tables.{
  PoolEntry, raw_string, parse_string, parse_entries, parse_table, parse_strings, parse_pool,
  filled_pool, parse_owned_strings,
}
use squid_script.Vm.Tables.Entries.{IsUtf8}
use squid_script.Vm.Program.{Program, parse, program_string}
use squid_script.Vm.Program.WellFormed.{
  IsProgram, parse-IsProgram, parse-sections, parse_sections-strings,
}
use squid_script.Vm.ProgramIndex.{ProgramIndex, pool_strings, from_program, index_string}

abbrev pool_result : List PoolEntry → List ℕ → Result VmError (List PoolEntry × List ℕ)
pool_result entries pool = ok (entries, pool)

parse_string-raw_string :
    (max : ℕ) (bytes : List ℕ) (cursor : ℕ) (raw : List ℕ) (end : ℕ)
    → raw_string max bytes cursor ≡ ok (raw, end)
    → is_utf8 raw ≡ true
    → parse_string max bytes cursor ≡ ok (raw, end)
unfolding parse_string
parse_string-raw_string max bytes cursor raw end e valid = rw (e, valid) refl

parse_entries-cons :
    (max n : ℕ) (bytes : List ℕ) (cursor : ℕ) (raw : List ℕ) (end : ℕ) (ss : List (List ℕ))
    (last : ℕ)
    → parse_string max bytes cursor ≡ ok (raw, end)
    → parse_entries (parse_string max) n bytes end ≡ ok (ss, last)
    → parse_entries (parse_string max) (suc n) bytes cursor ≡ ok (raw ∷ ss, last)
unfolding parse_entries
parse_entries-cons max n bytes cursor raw end ss last one more = rw (one, more) refl

pool_strings-cons :
    (max base end : ℕ) (raw : List ℕ) (ss : List (List ℕ)) (entries : List PoolEntry)
    (pool : List ℕ)
    → checked_end max base (length raw) ≡ ok end
    → end ≤ max_program_string_bytes
    → base + length raw ≡ end
    → pool_strings max end ss ≡ ok (entries, pool)
    → pool_strings max base (raw ∷ ss)
      ≡ ok (record { string_offset = base; string_len = length raw } ∷ entries, raw ++ pool)
unfolding pool_strings
pool_strings-cons max base end raw ss entries pool one room sum more =
    let fine : (leb end max_program_string_bytes && leb (length raw) 65535) ≡ true = ground arith in
    rw (one, fine, more) refl

parse_entries-zero :
    (max : ℕ) (bytes : List ℕ) (cursor last : ℕ)
    → cursor ≡ last
    → parse_entries (parse_string max) zero bytes cursor ≡ ok ([], last)
unfolding parse_entries
parse_entries-zero max bytes cursor last e = ap (λ (t : ℕ). ok ([], t)) e

pool_strings-nil :
    (max base : ℕ) (entries : List PoolEntry) (pool : List ℕ)
    → pool_result [] [] ≡ pool_result entries pool
    → pool_strings max base [] ≡ ok (entries, pool)
unfolding pool_strings
pool_strings-nil max base entries pool e = e

checked_end_sum : (max a b end : ℕ) → checked_end max a b ≡ ok end → (a + b ≡ end) × (end ≤ max)
unfolding checked_end
checked_end_sum max a b end e = ground arith

-- The strings that `parse_owned_strings` copies into the pool are those that `parse_strings` borrows,
-- and the pool is the one that `from_program` builds of them.
parse_pool-strings :
    (max n : ℕ) (bytes : List ℕ) (cursor base : ℕ) (entries : List PoolEntry) (pool : List ℕ)
    (last : ℕ)
    → parse_pool max n bytes cursor base ≡ ok ((entries, pool), last)
    → (ss : List (List ℕ)) × (parse_entries (parse_string max) n bytes cursor ≡ ok (ss, last))
      × (pool_strings max base ss ≡ ok (entries, pool))
unfolding parse_pool
parse_pool-strings max zero bytes cursor base entries pool last e = (
  [],
  parse_entries-zero max bytes cursor last (ground arith),
  pool_strings-nil max base entries pool (ground arith),
)
parse_pool-strings max (suc n) bytes cursor base entries pool last e =
    let ((raw, end), raw_ok, e₁) = >>=-eq-ok (raw_string max bytes cursor) _ e in
    let (_, fine, e₂) = >>=-eq-ok (guard (is_utf8 raw) invalid_utf8) _ e₁ in
    let (pool_end, sum, e₃) = >>=-eq-ok (checked_end max base (length raw)) _ e₂ in
    let (_, few, e₄) =
      >>=-eq-ok (guard (leb pool_end max_program_string_bytes) too_many_strings) _ e₃ in
    let (((es, rest), c), more, e₅) = >>=-eq-ok (parse_pool max n bytes end pool_end) _ e₄ in
    let valid = guard-eq-ok (is_utf8 raw) invalid_utf8 fine in
    let room = guard-eq-ok (leb pool_end max_program_string_bytes) too_many_strings few in
    let (total, _) = checked_end_sum max base (length raw) pool_end sum in
    let (ss, borrowed, pooled) = parse_pool-strings max n bytes end pool_end es rest c more in
    let one = parse_string-raw_string max bytes cursor raw end raw_ok valid in
    let same : c ≡ last = ground arith in
    let same_pool : pool_result (record { string_offset = base; string_len = length raw } ∷ es)
          (raw ++ rest)
        ≡ pool_result entries pool =
      ground arith in
    (
      raw ∷ ss,
      parse_entries-cons max n bytes cursor raw end ss c one borrowed
          ∙ ap (λ (t : ℕ). ok (raw ∷ ss, t)) same,
      pool_strings-cons max base pool_end raw ss es rest sum (ground arith) total pooled
          ∙ same_pool,
    )

parse_strings_run :
    (max n : ℕ) (bytes : List ℕ) (ss : List (List ℕ)) (c : ℕ)
    → read_u16 bytes 0 ≡ ok n
    → leb n max_strings ≡ true
    → parse_entries (parse_string max) n bytes 2 ≡ ok (ss, c)
    → (c == length bytes) ≡ true
    → parse_strings max bytes ≡ ok ss
unfolding parse_strings parse_table
parse_strings_run max n bytes ss c counted room borrowed whole =
    rw (counted, room, borrowed, whole) refl

pub parse_owned_strings-parse_strings :
    (max : ℕ) (bytes pool : List ℕ) (entries : List PoolEntry)
    → parse_owned_strings max bytes ≡ ok (pool, entries)
    → (ss : List (List ℕ)) × (parse_strings max bytes ≡ ok ss)
      × ((raws : List ℕ) × (pool_strings max 0 ss ≡ ok (entries, raws)) × (filled_pool raws ≡ pool))
unfolding parse_owned_strings
parse_owned_strings-parse_strings max bytes pool entries e =
    let (n, counted, e₁) = >>=-eq-ok (read_u16 bytes 0) _ e in
    let (_, few, e₂) = >>=-eq-ok (guard (leb n max_strings) too_many_strings) _ e₁ in
    let (((es, raws), c), got, e₃) = >>=-eq-ok (parse_pool max n bytes 2 0) _ e₂ in
    let (_, whole, e₄) = >>=-eq-ok (guard (c == length bytes) invalid_section) _ e₃ in
    let (ss, borrowed, held) = parse_pool-strings max n bytes 2 0 es raws c got in
    let room = guard-eq-ok (leb n max_strings) too_many_strings few in
    let at_end = guard-eq-ok (c == length bytes) invalid_section whole in
    let same_entries : es ≡ entries = ground arith in
    (
      ss,
      parse_strings_run max n bytes ss c counted room borrowed at_end,
      (raws, held ∙ ap (λ (t : List PoolEntry). ok (t, raws)) same_entries, ground arith),
    )

-- Where the strings of `entries` lie in the pool.
abbrev Holds : ℕ → List ℕ → List PoolEntry → List (List ℕ) → Type 0
Holds max pool [] [] = Unit {0}
Holds max pool [] (s ∷ ss) = ⊥
Holds max pool (e ∷ es) [] = ⊥
Holds max pool (e ∷ es) (s ∷ ss) =
    (slice e.string_offset (e.string_offset + e.string_len) pool ≡ s)
    × (e.string_offset + e.string_len ≤ length pool)
    × (e.string_offset + e.string_len ≤ max)
    × Holds max pool es ss

slice_middle :
    (pre s post : List ℕ) → slice (length pre) (length pre + length s) (pre ++ (s ++ post)) ≡ s
slice_middle pre s post =
    let e : length pre + 0 ≡ length pre = omega arith in
    let d : length s - 0 ≡ length s = omega arith in
    let moved = slice-append pre (s ++ post) 0 (length s) in
    let cut : slice 0 (length s) (s ++ post) ≡ s = rw d (take-append s post) in
    ap (λ t. slice t (length pre + length s) (pre ++ (s ++ post))) (sym e) ∙ moved ∙ cut

Holds-step :
    (max base : ℕ) (pre s rest post : List ℕ) (es : List PoolEntry) (ss : List (List ℕ))
    → length pre ≡ base
    → base + length s ≤ max
    → Holds max ((pre ++ s) ++ (rest ++ post)) es ss
    → Holds max
        (pre ++ ((s ++ rest) ++ post))
        (record { string_offset = base; string_len = length s } ∷ es)
        (s ∷ ss)
Holds-step max base pre s rest post es ss at fits later =
    let shift : (pre ++ s) ++ (rest ++ post) ≡ pre ++ ((s ++ rest) ++ post) = simp append_assoc in
    let shift' : pre ++ (s ++ (rest ++ post)) ≡ pre ++ ((s ++ rest) ++ post) = simp append_assoc in
    let size₁ = length-append pre ((s ++ rest) ++ post) in
    let size₂ = length-append (s ++ rest) post in
    let size₃ = length-append s rest in
    let found : slice base (base + length s) (pre ++ ((s ++ rest) ++ post)) ≡ s =
      subst (λ t. slice t (t + length s) (pre ++ ((s ++ rest) ++ post)) ≡ s) at
        (subst (λ t. slice (length pre) (length pre + length s) t ≡ s) shift'
          (slice_middle pre s (rest ++ post))) in
    (found, omega arith, fits, subst (λ t. Holds max t es ss) shift later)

pool_strings-Holds :
    (max base : ℕ) (ss : List (List ℕ)) (pre post : List ℕ) (entries : List PoolEntry)
    (pool : List ℕ)
    → length pre ≡ base
    → base ≤ max_program_string_bytes
    → pool_strings max base ss ≡ ok (entries, pool)
    → (length pool + base ≤ max_program_string_bytes) × Holds max (pre ++ (pool ++ post)) entries ss
unfolding pool_strings
pool_strings-Holds max base [] pre post entries pool at room e =
    let none_left : [] ≡ pool = ground arith in
    let no_entry : [] ≡ entries = ground arith in
    subst
      (λ (t : List PoolEntry).
        (length pool + base ≤ max_program_string_bytes) × Holds max (pre ++ (pool ++ post)) t [])
      no_entry
      (
        subst (λ (t : List ℕ). length t + base ≤ max_program_string_bytes) none_left (omega arith),
        tt,
      )
pool_strings-Holds max base (s ∷ ss) pre post entries pool at room e =
    let (pool_end, sum, e₁) = >>=-eq-ok (checked_end max base (length s)) _ e in
    let (_, few, e₂) =
      >>=-eq-ok
        (guard (leb pool_end max_program_string_bytes && leb (length s) 65535) too_many_strings) _
        e₁ in
    let ((es, rest), more, e₃) = >>=-eq-ok (pool_strings max pool_end ss) _ e₂ in
    let fine =
      guard-eq-ok (leb pool_end max_program_string_bytes && leb (length s) 65535) too_many_strings
        few in
    let (total, bound) = checked_end_sum max base (length s) pool_end sum in
    let size = length-append pre s in
    let below : pool_end ≤ max_program_string_bytes = ground arith in
    let (short, later) =
      pool_strings-Holds max pool_end ss (pre ++ s) post es rest (omega arith) below more in
    let step = Holds-step max base pre s rest post es ss at (omega arith) later in
    let same : pool_result (record { string_offset = base; string_len = length s } ∷ es) (s ++ rest)
        ≡ pool_result entries pool =
      e₃ in
    let same_entries : record { string_offset = base; string_len = length s } ∷ es ≡ entries =
      ground arith in
    let same_pool : s ++ rest ≡ pool = ground arith in
    let size' = length-append s rest in
    (
      subst (λ (t : List ℕ). length t + base ≤ max_program_string_bytes) same_pool (omega arith),
      subst (λ (t : List ℕ). Holds max (pre ++ (t ++ post)) entries (s ∷ ss)) same_pool
          (subst (λ (t : List PoolEntry). Holds max (pre ++ ((s ++ rest) ++ post)) t (s ∷ ss))
            same_entries step),
    )

Holds-index :
    (max : ℕ) (pool : List ℕ) (es : List PoolEntry) (ss : List (List ℕ)) (i : ℕ)
    → Holds max pool es ss
    → i < length ss
    → (e : PoolEntry) × (s : List ℕ) × (index {E = VmError} es i ≡ ok e)
      × (index {E = VmError} ss i ≡ ok s)
      × (slice e.string_offset (e.string_offset + e.string_len) pool ≡ s)
      × (e.string_offset + e.string_len ≤ length pool)
      × (e.string_offset + e.string_len ≤ max)
Holds-index max pool es [] i h lt = absurd (omega arith)
Holds-index max pool [] (s ∷ ss) i h lt = absurd h
Holds-index max pool (e ∷ es) (s ∷ ss) zero (cut, inside, fits, _) lt =
    (e, s, refl, refl, cut, inside, fits)
Holds-index max pool (e ∷ es) (s ∷ ss) (suc i) (_, _, _, h) lt =
    Holds-index max pool es ss i h (omega arith)

Holds-length :
    (max : ℕ) (pool : List ℕ) (es : List PoolEntry) (ss : List (List ℕ))
    → Holds max pool es ss
    → length es ≡ length ss
Holds-length max pool [] [] h = refl
Holds-length max pool [] (s ∷ ss) h = absurd h
Holds-length max pool (e ∷ es) [] h = absurd h
Holds-length max pool (e ∷ es) (s ∷ ss) (_, _, _, h) = ap suc (Holds-length max pool es ss h)

All-index :
    (ss : List (List ℕ)) (i : ℕ) (s : List ℕ)
    → All IsUtf8 ss
    → index {E = VmError} ss i ≡ ok s
    → IsUtf8 s
All-index [] i s all e = cc
All-index (x ∷ ss) zero s all e = let same : x ≡ s = ground arith in subst IsUtf8 same all.0
All-index (x ∷ ss) (suc i) s all e = All-index ss i s all.1 e

string_read :
    (max : ℕ) (x : ProgramIndex) (id : ℕ) (e : PoolEntry) (s : List ℕ)
    → id < length x.strings
    → index {E = VmError} x.strings id ≡ ok e
    → slice e.string_offset (e.string_offset + e.string_len) x.string_bytes ≡ s
    → e.string_offset + e.string_len ≤ length x.string_bytes
    → e.string_offset + e.string_len ≤ max
    → IsUtf8 s
    → index_string max x id ≡ ok s
unfolding index_string checked_end get_range
string_read max x id e s lt at cut inside fits valid =
    let there = lt→ltb id (length x.strings) lt in
    let sums : leb (e.string_offset + e.string_len) max ≡ true = ground arith in
    let ranges : (leb e.string_offset (e.string_offset + e.string_len)
          && leb (e.string_offset + e.string_len) (length x.string_bytes))
        ≡ true =
      ground arith in
    rw (there, at, sums, ranges, cut, valid) refl

pool_of :
    (max : ℕ) (bytes : List ℕ) (p : Program)
    → parse max bytes ≡ ok p
    → (entries : List PoolEntry) × (raws : List ℕ) × (pool_strings max 0 p.strings
        ≡ ok (entries, raws))
pool_of max bytes p e =
    let (strings, state, functions, handlers, code, triggers, screens, found) =
      parse-sections max bytes p e in
    let ((pool, entries), owned, borrowed) =
      parse_sections-strings max strings state functions handlers triggers screens code p found in
    let (ss, same, (raws, held, _)) =
      parse_owned_strings-parse_strings max strings pool entries owned in
    let equal : ok ss ≡ ok p.strings = sym same ∙ borrowed in
    let strings_equal : ss ≡ p.strings = ground arith in
    (
      entries,
      raws,
      subst (λ (t : List (List ℕ)). pool_strings max 0 t ≡ ok (entries, raws)) strings_equal held,
    )

index_string_agrees :
    (max : ℕ) (p : Program) (x : ProgramIndex) (id : ℕ)
    → IsProgram p
    → Holds max x.string_bytes x.strings p.strings
    → index_string max x id ≡ program_string p id
unfolding index_string program_string
index_string_agrees max p x id (sound, _, _) h =
    let size = Holds-length max x.string_bytes x.strings p.strings h in
    elim (Bool-cases (ltb id (length p.strings))) [
      | inl lt ↦
          let (e, s, at, at', cut, inside, fits) =
            Holds-index max x.string_bytes x.strings p.strings id h (ltb→lt id _ lt) in
          let valid = All-index p.strings id s sound.strings.1 at' in
          rw (lt, at')
            (string_read max x id e s (omega (arith, ltb→lt id _ lt)) at cut inside fits valid)
      | inr ge ↦ rw (size, ge) refl
    ]

-- Of a program that `Program::parse` accepts, `from_program` makes an index, and a string of the index
-- is the string of the program, for every id, also one that is out of range.
pub from_program-index_string :
    (max : ℕ) (bytes : List ℕ) (p : Program)
    → parse max bytes ≡ ok p
    → (x : ProgramIndex) × (from_program max p ≡ ok x)
      × ((id : ℕ) → index_string max x id ≡ program_string p id)
unfolding from_program
from_program-index_string max bytes p e =
    let (entries, raws, held) = pool_of max bytes p e in
    let zeros : List ℕ = replicate (max_program_string_bytes - length raws) 0 in
    let (_, lies) =
      pool_strings-Holds max 0 p.strings [] zeros entries raws refl (omega arith) held in
    let x : ProgramIndex = record {
      string_bytes = filled_pool raws;
      strings = entries;
      state_slots = p.state_slots;
      functions = p.functions;
      handlers = p.handlers;
      trigger_timers = p.trigger_timers;
      screens = p.screens;
      code_offset = 0;
      code_len = length p.code;
    } in
    (x, rw held refl, λ id. index_string_agrees max p x id (parse-IsProgram max bytes p e) lies)
