-- ===== src/Vm/Builtins/Content/Safe.antt =====
-- compiler/rust/crates/squidvm-core/src/vm.rs: what the builtins for configuration, books and files keep of
-- the machine.
use squid_script.Base.{ℕ, All}
use squid_script.Vm.Values.{expect_i32}
use squid_script.Vm.Services.{
  device_config_load, device_config_set, device_config_rebind, device_config_save, file_pick_file,
  file_read_text, file_read_lines, file_copy, binbook_open, binbook_info, binbook_read_page,
  binbook_chapters, binbook_chapter, content_binbook_list,
}
use squid_script.Vm.Machine.{Host}
use squid_script.Vm.Exec.{M}
use squid_script.Vm.Instructions.{expect_sqbc}
use squid_script.Vm.Builtins.Operands.{expect_handle, service}
use squid_script.Vm.Builtins.Records.{
  device_config_result_record, file_pick_file_result_record, file_read_text_result_record,
  file_copy_result_record, binbook_open_record, binbook_info_record, binbook_read_page_record,
  file_read_lines_result_record, binbook_chapter_list_record, content_binbook_list_record,
  binbook_chapter_result_record,
}
use squid_script.Vm.Exec.Triples.{Stays, Stays-bind}
use squid_script.Vm.Exec.Safe.{Returns, pop-Stays}
use squid_script.Vm.Instructions.Safe.{expect_i32-Settles, expect_sqbc-Settles}
use squid_script.Vm.Builtins.Operands.Safe.{
  ◌⨾◌, expect_handle-Settles, pop_as-Stays, named-Stays, text_of-Stays, resolver-Stays,
  service-Stays, answered-Stays,
}
use squid_script.Vm.Builtins.Records.Safe.{
  device_config_result_record-Stays, file_pick_file_result_record-Stays,
  file_read_text_result_record-Stays, file_copy_result_record-Stays, binbook_open_record-Stays,
  binbook_info_record-Stays, binbook_read_page_record-Stays, file_read_lines_result_record-Stays,
  binbook_chapter_list_record-Stays, content_binbook_list_record-Stays,
  binbook_chapter_result_record-Stays,
}
use squid_script.Vm.Builtins.Content.{
  on_device_config_load, on_device_config_set, on_device_config_rebind, on_device_config_save,
  on_binbook_open, on_binbook_info, on_binbook_read_page, on_binbook_chapters, on_binbook_chapter,
  on_content_binbook_list, on_file_pick_file, on_file_read_text, on_file_read_lines, on_file_copy,
  content_arms,
}

module _ {H : Type 0} (max : ℕ) (host : Host H) (returns : Returns host) where
  on_device_config_load-Stays : Stays (on_device_config_load max host)
  unfolding on_device_config_load
  on_device_config_load-Stays =
      Stays-bind _ _ (pop_as-Stays expect_sqbc expect_sqbc-Settles) λ source_id.
        Stays-bind _ _ (named-Stays max source_id) λ source.
          answered-Stays (service host (device_config_load source))
            (device_config_result_record max)
            (service-Stays host returns (device_config_load source))
            (device_config_result_record-Stays max)

  on_device_config_set-Stays : Stays (on_device_config_set max host)
  unfolding on_device_config_set
  on_device_config_set-Stays = Stays-bind _ _ (pop-Stays) λ value.
      Stays-bind _ _ (pop_as-Stays expect_sqbc expect_sqbc-Settles) λ key_id.
        Stays-bind _ _ (resolver-Stays) λ strings. Stays-bind _ _ (named-Stays max key_id) λ key.
          answered-Stays (service host (device_config_set key value strings))
            (device_config_result_record max)
            (service-Stays host returns (device_config_set key value strings))
            (device_config_result_record-Stays max)

  on_device_config_rebind-Stays : Stays (on_device_config_rebind max host)
  unfolding on_device_config_rebind
  on_device_config_rebind-Stays =
      Stays-bind _ _ (pop_as-Stays expect_sqbc expect_sqbc-Settles) λ binding_id.
        Stays-bind _ _ (named-Stays max binding_id) λ binding.
          answered-Stays (service host (device_config_rebind binding))
            (device_config_result_record max)
            (service-Stays host returns (device_config_rebind binding))
            (device_config_result_record-Stays max)

  on_device_config_save-Stays : Stays (on_device_config_save max host)
  unfolding on_device_config_save
  on_device_config_save-Stays =
      Stays-bind _ _ (pop_as-Stays expect_sqbc expect_sqbc-Settles) λ destination_id.
        Stays-bind _ _ (named-Stays max destination_id) λ destination.
          answered-Stays (service host (device_config_save destination))
            (device_config_result_record max)
            (service-Stays host returns (device_config_save destination))
            (device_config_result_record-Stays max)

  on_binbook_open-Stays : Stays (on_binbook_open max host)
  unfolding on_binbook_open
  on_binbook_open-Stays = Stays-bind _ _ (pop-Stays) λ target.
      Stays-bind _ _ (text_of-Stays max target) λ path.
        answered-Stays (service host (binbook_open path)) (binbook_open_record max)
          (service-Stays host returns (binbook_open path)) (binbook_open_record-Stays max)

  on_binbook_info-Stays : Stays (on_binbook_info max host)
  unfolding on_binbook_info
  on_binbook_info-Stays = Stays-bind _ _ (pop_as-Stays expect_handle expect_handle-Settles) λ book.
      answered-Stays (service host (binbook_info book)) (binbook_info_record max)
        (service-Stays host returns (binbook_info book)) (binbook_info_record-Stays max)

  on_binbook_read_page-Stays : Stays (on_binbook_read_page max host)
  unfolding on_binbook_read_page
  on_binbook_read_page-Stays =
      Stays-bind _ _ (pop_as-Stays expect_i32 expect_i32-Settles) λ page_index.
        Stays-bind _ _ (pop_as-Stays expect_handle expect_handle-Settles) λ book.
          answered-Stays (service host (binbook_read_page book page_index))
            (binbook_read_page_record max)
            (service-Stays host returns (binbook_read_page book page_index))
            (binbook_read_page_record-Stays max)

  on_binbook_chapters-Stays : Stays (on_binbook_chapters max host)
  unfolding on_binbook_chapters
  on_binbook_chapters-Stays = Stays-bind _ _ (pop_as-Stays expect_i32 expect_i32-Settles) λ limit.
      Stays-bind _ _ (pop_as-Stays expect_i32 expect_i32-Settles) λ offset.
        Stays-bind _ _ (pop_as-Stays expect_handle expect_handle-Settles) λ book.
          answered-Stays (service host (binbook_chapters book offset limit))
            (binbook_chapter_list_record max)
            (service-Stays host returns (binbook_chapters book offset limit))
            (binbook_chapter_list_record-Stays max)

  on_binbook_chapter-Stays : Stays (on_binbook_chapter max host)
  unfolding on_binbook_chapter
  on_binbook_chapter-Stays = Stays-bind _ _ (pop_as-Stays expect_i32 expect_i32-Settles) λ at.
      Stays-bind _ _ (pop_as-Stays expect_handle expect_handle-Settles) λ book.
        answered-Stays (service host (binbook_chapter book at)) (binbook_chapter_result_record max)
          (service-Stays host returns (binbook_chapter book at))
          (binbook_chapter_result_record-Stays max)

  on_content_binbook_list-Stays : Stays (on_content_binbook_list max host)
  unfolding on_content_binbook_list
  on_content_binbook_list-Stays =
      Stays-bind _ _ (pop_as-Stays expect_i32 expect_i32-Settles) λ limit.
        Stays-bind _ _ (pop_as-Stays expect_i32 expect_i32-Settles) λ offset.
          Stays-bind _ _ (pop_as-Stays expect_sqbc expect_sqbc-Settles) λ library_id.
            Stays-bind _ _ (named-Stays max library_id) λ library.
              answered-Stays (service host (content_binbook_list library offset limit))
                (content_binbook_list_record max)
                (service-Stays host returns (content_binbook_list library offset limit))
                (content_binbook_list_record-Stays max)

  on_file_pick_file-Stays : Stays (on_file_pick_file max host)
  unfolding on_file_pick_file
  on_file_pick_file-Stays =
      Stays-bind _ _ (pop_as-Stays expect_sqbc expect_sqbc-Settles) λ extension_id.
        Stays-bind _ _ (named-Stays max extension_id) λ extension.
          answered-Stays (service host (file_pick_file extension))
            (file_pick_file_result_record max)
            (service-Stays host returns (file_pick_file extension))
            (file_pick_file_result_record-Stays max)

  on_file_read_text-Stays : Stays (on_file_read_text max host)
  unfolding on_file_read_text
  on_file_read_text-Stays = Stays-bind _ _ (pop_as-Stays expect_sqbc expect_sqbc-Settles) λ path_id.
      Stays-bind _ _ (named-Stays max path_id) λ path.
        answered-Stays (service host (file_read_text path)) (file_read_text_result_record max)
          (service-Stays host returns (file_read_text path))
          (file_read_text_result_record-Stays max)

  on_file_read_lines-Stays : Stays (on_file_read_lines max host)
  unfolding on_file_read_lines
  on_file_read_lines-Stays =
      Stays-bind _ _ (pop_as-Stays expect_i32 expect_i32-Settles) λ max_lines.
        Stays-bind _ _ (pop_as-Stays expect_sqbc expect_sqbc-Settles) λ path_id.
          Stays-bind _ _ (named-Stays max path_id) λ path.
            answered-Stays (service host (file_read_lines path max_lines))
              (file_read_lines_result_record max)
              (service-Stays host returns (file_read_lines path max_lines))
              (file_read_lines_result_record-Stays max)

  on_file_copy-Stays : Stays (on_file_copy max host)
  unfolding on_file_copy
  on_file_copy-Stays = Stays-bind _ _ (pop-Stays) λ name_value.
      Stays-bind _ _ (pop-Stays) λ library_value. Stays-bind _ _ (pop-Stays) λ source_value.
        Stays-bind _ _ (text_of-Stays max source_value) λ source.
          Stays-bind _ _ (text_of-Stays max library_value) λ library.
            Stays-bind _ _ (text_of-Stays max name_value) λ name.
              answered-Stays (service host (file_copy source library name))
                (file_copy_result_record max)
                (service-Stays host returns (file_copy source library name))
                (file_copy_result_record-Stays max)

  pub content_arms-Stay : All (λ (arm : ℕ × M H (Unit {0})). Stays arm.1) (content_arms max host)
  content_arms-Stay =
      on_device_config_load-Stays ⨾ on_device_config_set-Stays ⨾ on_device_config_rebind-Stays
      ⨾ on_device_config_save-Stays ⨾ on_binbook_open-Stays ⨾ on_binbook_info-Stays
      ⨾ on_binbook_read_page-Stays ⨾ on_binbook_chapters-Stays ⨾ on_binbook_chapter-Stays
      ⨾ on_content_binbook_list-Stays ⨾ on_file_pick_file-Stays ⨾ on_file_read_text-Stays
      ⨾ on_file_read_lines-Stays ⨾ on_file_copy-Stays ⨾ tt
