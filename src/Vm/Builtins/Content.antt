-- ===== src/Vm/Builtins/Content.antt =====
-- compiler/rust/crates/squidvm-core/src/vm.rs: the arms of `call_builtin` for configuration, books and files.
pub mod Safe
use squid_script.Base.{ℕ, List, [], ◌∷◌}
use squid_script.Vm.Values.{expect_i32}
use squid_script.Vm.Services.{
  device_config_load, device_config_set, device_config_rebind, device_config_save, file_pick_file,
  file_read_text, file_read_lines, file_copy, binbook_open, binbook_info, binbook_read_page,
  binbook_chapters, binbook_chapter, content_binbook_list,
}
use squid_script.Vm.Machine.{Host}
use squid_script.Vm.Exec.{M, ◌>>=◌, ◌>>◌, pop}
use squid_script.Vm.Instructions.{expect_sqbc}
use squid_script.Vm.Builtins.Operands.{
  expect_handle, pop_as, named, text_of, resolver, service, answered,
}
use squid_script.Vm.Builtins.Records.{
  device_config_result_record, file_pick_file_result_record, file_read_text_result_record,
  file_copy_result_record, binbook_open_record, binbook_info_record, binbook_read_page_record,
  file_read_lines_result_record, binbook_chapter_list_record, content_binbook_list_record,
  binbook_chapter_result_record,
}

module _ {H : Type 0} (max : ℕ) (host : Host H) where
  unfoldable pub on_device_config_load : M H (Unit {0})
  unfolding pop_as named service answered device_config_result_record
  on_device_config_load = do
    source_id ← pop_as expect_sqbc
    source ← named max source_id
    answered (service host (device_config_load source)) (device_config_result_record max)

  unfoldable pub on_device_config_set : M H (Unit {0})
  unfolding pop_as pop named resolver service answered device_config_result_record
  on_device_config_set = do
    value ← pop
    key_id ← pop_as expect_sqbc
    strings ← resolver
    key ← named max key_id
    answered (service host (device_config_set key value strings)) (device_config_result_record max)

  unfoldable pub on_device_config_rebind : M H (Unit {0})
  unfolding pop_as named service answered device_config_result_record
  on_device_config_rebind = do
    binding_id ← pop_as expect_sqbc
    binding ← named max binding_id
    answered (service host (device_config_rebind binding)) (device_config_result_record max)

  unfoldable pub on_device_config_save : M H (Unit {0})
  unfolding pop_as named service answered device_config_result_record
  on_device_config_save = do
    destination_id ← pop_as expect_sqbc
    destination ← named max destination_id
    answered (service host (device_config_save destination)) (device_config_result_record max)

  unfoldable pub on_binbook_open : M H (Unit {0})
  unfolding pop text_of service answered binbook_open_record
  on_binbook_open = do
    target ← pop
    path ← text_of max target
    answered (service host (binbook_open path)) (binbook_open_record max)

  unfoldable pub on_binbook_info : M H (Unit {0})
  unfolding pop_as service answered binbook_info_record
  on_binbook_info = do
    book ← pop_as expect_handle
    answered (service host (binbook_info book)) (binbook_info_record max)

  unfoldable pub on_binbook_read_page : M H (Unit {0})
  unfolding pop_as service answered binbook_read_page_record
  on_binbook_read_page = do
    page_index ← pop_as expect_i32
    book ← pop_as expect_handle
    answered (service host (binbook_read_page book page_index)) (binbook_read_page_record max)

  unfoldable pub on_binbook_chapters : M H (Unit {0})
  unfolding pop_as service answered binbook_chapter_list_record
  on_binbook_chapters = do
    limit ← pop_as expect_i32
    offset ← pop_as expect_i32
    book ← pop_as expect_handle
    answered (service host (binbook_chapters book offset limit)) (binbook_chapter_list_record max)

  unfoldable pub on_binbook_chapter : M H (Unit {0})
  unfolding pop_as service answered binbook_chapter_result_record
  on_binbook_chapter = do
    at ← pop_as expect_i32
    book ← pop_as expect_handle
    answered (service host (binbook_chapter book at)) (binbook_chapter_result_record max)

  unfoldable pub on_content_binbook_list : M H (Unit {0})
  unfolding pop_as named service answered content_binbook_list_record
  on_content_binbook_list = do
    limit ← pop_as expect_i32
    offset ← pop_as expect_i32
    library_id ← pop_as expect_sqbc
    library ← named max library_id
    answered (service host (content_binbook_list library offset limit))
        (content_binbook_list_record max)

  unfoldable pub on_file_pick_file : M H (Unit {0})
  unfolding pop_as named service answered file_pick_file_result_record
  on_file_pick_file = do
    extension_id ← pop_as expect_sqbc
    extension ← named max extension_id
    answered (service host (file_pick_file extension)) (file_pick_file_result_record max)

  unfoldable pub on_file_read_text : M H (Unit {0})
  unfolding pop_as named service answered file_read_text_result_record
  on_file_read_text = do
    path_id ← pop_as expect_sqbc
    path ← named max path_id
    answered (service host (file_read_text path)) (file_read_text_result_record max)

  unfoldable pub on_file_read_lines : M H (Unit {0})
  unfolding pop_as named service answered file_read_lines_result_record
  on_file_read_lines = do
    max_lines ← pop_as expect_i32
    path_id ← pop_as expect_sqbc
    path ← named max path_id
    answered (service host (file_read_lines path max_lines)) (file_read_lines_result_record max)

  unfoldable pub on_file_copy : M H (Unit {0})
  unfolding pop text_of service answered file_copy_result_record
  on_file_copy = do
    name_value ← pop
    library_value ← pop
    source_value ← pop
    source ← text_of max source_value
    library ← text_of max library_value
    name ← text_of max name_value
    answered (service host (file_copy source library name)) (file_copy_result_record max)

  -- The arms, by their numbers.
  abbrev pub content_arms : List (ℕ × M H (Unit {0}))
  content_arms =
      (0x70, on_device_config_load)
      ∷ (0x71, on_device_config_set)
      ∷ (0x72, on_device_config_rebind)
      ∷ (0x73, on_device_config_save)
      ∷ (0x80, on_binbook_open)
      ∷ (0x81, on_binbook_info)
      ∷ (0x82, on_binbook_read_page)
      ∷ (0x84, on_binbook_chapters)
      ∷ (0x85, on_binbook_chapter)
      ∷ (0x83, on_content_binbook_list)
      ∷ (0x90, on_file_pick_file)
      ∷ (0x91, on_file_read_text)
      ∷ (0x92, on_file_read_lines)
      ∷ (0x93, on_file_copy)
      ∷ []
