-- ===== src/Vm/Sqbc.antt =====
-- compiler/rust/crates/squidvm-core/src/program.rs: the header of a compiled program and the table of
-- its sections. `max` is `usize::MAX`; a sum or product that the source does not check wraps, as in a
-- release build. Of a cursor into a table, which is an offset below the table's end or just behind
-- what was read there, the sums do not wrap.
use squid_script.Base.{
  ℕ, zero, suc, ◌+◌, ◌*◌, ◌%◌, not, ◌&&◌, Option, none, some, List, [], ◌∷◌, length, take, slice,
  bytes_eq, ltb, leb, ◌==◌, if◌then◌else◌, Result, ok, err, panic, stuck, ◌>>=◌, ◌>>◌, guard,
}
use squid_script.Vm.Values.{
  VmError, invalid_header, missing_section, duplicate_section, invalid_section, read_u16, read_u32,
}

abbrev pub sqbc_header_len : ℕ
sqbc_header_len = 14

-- "SQBC"
abbrev pub sqbc_magic : List ℕ
sqbc_magic = 0x53 ∷ 0x51 ∷ 0x42 ∷ 0x43 ∷ []

pub record SqbcHeader : Type 0 where
  pub header_len : ℕ
  pub file_len : ℕ
  pub section_count : ℕ

pub record SqbcSection : Type 0 where
  pub kind : ℕ
  pub offset : ℕ
  pub len : ℕ

-- `SQBC_HEADER_LEN + index * 12`
abbrev pub record_base : ℕ → ℕ → ℕ
record_base max index = (sqbc_header_len + (index * 12) % suc max) % suc max

-- `a.checked_add(b).ok_or(VmError::InvalidSection)?`
unfoldable pub checked_end : ℕ → ℕ → ℕ → Result VmError ℕ
checked_end max start len = if leb (start + len) max then ok (start + len) else err invalid_section

-- `bytes.get(start..end).ok_or(VmError::InvalidSection)?`
unfoldable pub get_range : List ℕ → ℕ → ℕ → Result VmError (List ℕ)
get_range bytes start end =
    if leb start end && leb end (length bytes)
    then ok (slice start end bytes)
    else err invalid_section

unfoldable pub parse_header : ℕ → List ℕ → Result VmError SqbcHeader
parse_header max bytes = do
  guard (leb sqbc_header_len (length bytes) && bytes_eq (take 4 bytes) sqbc_magic) invalid_header
  header_len ← read_u16 bytes 4
  file_len ← read_u32 bytes 6
  section_count ← read_u32 bytes 10
  guard ((header_len == record_base max section_count) && leb sqbc_header_len header_len)
      invalid_header
  ok (record { header_len = header_len; file_len = file_len; section_count = section_count })

unfoldable pub parse_section_record : ℕ → List ℕ → ℕ → Result VmError SqbcSection
unfolding checked_end
parse_section_record max header_bytes index = do
  header ← parse_header max header_bytes
  guard (ltb index header.section_count && leb header.header_len (length header_bytes))
      invalid_section
  kind ← read_u16 header_bytes (record_base max index)
  offset ← read_u32 header_bytes (record_base max index + 4)
  len ← read_u32 header_bytes (record_base max index + 8)
  end ← checked_end max offset len
  guard (leb header.header_len offset && leb end header.file_len) invalid_section
  ok (record { kind = kind; offset = offset; len = len })

-- The inner loop of `validate_unique_section_kinds`, over the indices from `previous` on.
unfoldable pub kind_is_new : ℕ → List ℕ → ℕ → ℕ → ℕ → Result VmError (Unit {0})
kind_is_new max header_bytes kind previous zero = ok tt
kind_is_new max header_bytes kind previous (suc n) = do
  previous_kind ← read_u16 header_bytes (record_base max previous)
  guard (not (previous_kind == kind)) duplicate_section
  kind_is_new max header_bytes kind (suc previous) n

-- Its outer loop, at `index` with `n` records to go.
unfoldable pub kinds_are_new : ℕ → List ℕ → ℕ → ℕ → Result VmError (Unit {0})
unfolding kind_is_new
kinds_are_new max header_bytes index zero = ok tt
kinds_are_new max header_bytes index (suc n) = do
  kind ← read_u16 header_bytes (record_base max index)
  kind_is_new max header_bytes kind 0 index
  kinds_are_new max header_bytes (suc index) n

unfoldable pub validate_unique_section_kinds : ℕ → List ℕ → ℕ → Result VmError (Unit {0})
unfolding kinds_are_new
validate_unique_section_kinds max header_bytes section_count =
    kinds_are_new max header_bytes 0 section_count

-- The loop of `section`, at `index` with `n` records to go.
unfoldable pub section_from : ℕ → List ℕ → ℕ → ℕ → ℕ → Result VmError (List ℕ)
unfolding checked_end get_range
section_from max bytes kind index zero = err missing_section
section_from max bytes kind index (suc n) = do
  let rest = section_from max bytes kind (suc index) n
  record_kind ← read_u16 bytes (record_base max index)
  if record_kind == kind
      then (do
        offset ← read_u32 bytes (record_base max index + 4)
        len ← read_u32 bytes (record_base max index + 8)
        end ← checked_end max offset len
        get_range bytes offset end)
      else rest

unfoldable pub section : ℕ → List ℕ → ℕ → ℕ → Result VmError (List ℕ)
unfolding section_from
section max bytes section_count kind = section_from max bytes kind 0 section_count

abbrev pub present : Result VmError (List ℕ) → Result VmError (Option (List ℕ))
present (ok found) = ok (some found)
present (err missing_section) = ok none
present (err e) = err e
present panic = panic
present stuck = stuck

unfoldable pub optional_section : ℕ → List ℕ → ℕ → ℕ → Result VmError (Option (List ℕ))
unfolding section
optional_section max bytes section_count kind = present (section max bytes section_count kind)
