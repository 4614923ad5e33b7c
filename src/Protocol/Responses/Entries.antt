-- ===== src/Protocol/Responses/Entries.antt =====
-- compiler/rust/crates/squid-device-protocol/src/lib.rs: the records of an app list, as the layout of a
-- list of fields.
use squid_script.Base.{
  ℕ, ◌+◌, ◌≤◌, ◌≡◌, refl, ap, List, [], ◌∷◌, append-nil, length, length-take, length-drop, take,
  drop, drop_past, ok, arith,
}
use squid_script.Protocol.Fields.{string, u64, nested, Fields, end, field, u16_max, field_type}
use squid_script.Protocol.Fields.Layout.{fields_size, fields_bytes, SizesFit}
use squid_script.Protocol.Frame.Encode.{checked_add-eq}
use squid_script.Protocol.Responses.{AppEntry, entry_len, entries_len_from, write_entries}
use squid_script.Protocol.Responses.Writes.{
  write_tlv_header-eq, tlv_len-eq, write_string_tlv-eq, write_u64_tlv-eq,
}

-- The fields of a record of the list, and those of the list.
unfoldable pub entry_fields : AppEntry → Fields
entry_fields entry = field 1 (string entry.app_id) (field 2 (u64 entry.sqbc_len) end)

unfoldable pub app_list_fields : List AppEntry → Fields
app_list_fields [] = end
app_list_fields (entry ∷ entries) = field 1 (nested (entry_fields entry)) (app_list_fields entries)

-- The sizes of an entry's record.
entry_len-eq :
    (max capacity : ℕ) (entry : AppEntry)
    → length entry.app_id ≤ u16_max
    → 16 + length entry.app_id ≤ max
    → entry_len max capacity entry ≡ ok (4 + length entry.app_id + 12)
unfolding entry_len
entry_len-eq max capacity entry small room = rw (
  tlv_len-eq (length entry.app_id) small,
  checked_add-eq max (4 + length entry.app_id) 12 (omega arith),
)

pub entries_len_from-eq :
    (max capacity len total : ℕ) (entries : List AppEntry)
    → SizesFit (app_list_fields entries)
    → total ≡ len + fields_size (app_list_fields entries)
    → total ≤ max
    → entries_len_from max capacity len entries ≡ ok total
unfolding entries_len_from app_list_fields entry_fields fields_size
entries_len_from-eq max capacity len total [] fit e room = ap ok (omega arith)
entries_len_from-eq max capacity len total (entry ∷ entries) (small, (id_small, _, _), fit) e room =
    let n = 4 + length entry.app_id + 12 in
    rw (
      entry_len-eq max capacity entry id_small (omega arith),
      tlv_len-eq n (omega arith),
      checked_add-eq max len (4 + n) (omega arith),
      entries_len_from-eq max capacity (len + (4 + n)) total entries fit (omega arith) room,
    )

pub write_entries-eq :
    (max : ℕ) (entries : List AppEntry) (payload : List ℕ)
    → SizesFit (app_list_fields entries)
    → length payload ≤ max
    → length payload ≡ fields_size (app_list_fields entries)
    → write_entries max entries payload ≡ ok (fields_bytes (app_list_fields entries))
unfolding write_entries app_list_fields entry_fields fields_size fields_bytes field_type
write_entries-eq max [] [] fit room e = refl
write_entries-eq max [] (b ∷ payload) fit room e = absurd (omega arith)
write_entries-eq max (entry ∷ entries) payload (small, (id_small, _, _), fit) room e =
    let n = 4 + length entry.app_id + 12 in
    let inner = take n (drop 4 payload) in
    let size₄ = length-drop 4 payload in
    let size = length-take n (drop 4 payload) in
    let behind = length-drop (4 + length entry.app_id) inner in
    let after = length-drop n (drop 4 payload) in
    let last = drop_past 12 (drop (4 + length entry.app_id) inner) (omega arith) in
    let more =
      write_entries-eq max entries (drop n (drop 4 payload)) fit (omega arith) (omega arith) in
    let same : n ≡ 4 + (length entry.app_id + 12) = omega arith in
    rw
      (
        entry_len-eq max (length payload) entry id_small (omega arith),
        write_tlv_header-eq payload 1 32 n (omega arith) (omega arith),
        write_string_tlv-eq inner 1 entry.app_id id_small (omega arith),
        write_u64_tlv-eq (drop (4 + length entry.app_id) inner) 2 entry.sqbc_len (omega arith),
        last,
        more,
        append-nil,
      )
      (rw same refl)
