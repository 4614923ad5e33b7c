-- ===== src/Vm/Builtins/Display/Safe.antt =====
-- compiler/rust/crates/squidvm-core/src/vm.rs: what the builtins for the screen and the pins keep of
-- the machine.
use squid_script.Base.{ℕ, All}
use squid_script.Vm.Values.{bool_value, expect_i32}
use squid_script.Vm.Services.{
  draw_clear, draw_text, draw_rect, draw_line, draw_refresh_mode, draw_image, draw_resource,
  draw_select, display_info, hardware_gpio_write, hardware_gpio_toggle, hardware_gpio_read,
  service_indicator_write, service_indicator_toggle, service_indicator_breathe,
  service_indicator_blink, service_indicator_read,
}
use squid_script.Vm.Machine.{Host}
use squid_script.Vm.Exec.{M}
use squid_script.Vm.Instructions.{expect_sqbc}
use squid_script.Vm.Builtins.Operands.{expect_bool, optional_string, optional_color, service}
use squid_script.Vm.Builtins.Records.{display_info_record}
use squid_script.Vm.Exec.Triples.{Stays, Stays-bind}
use squid_script.Vm.Exec.Safe.{Returns, push-Stays, pop-Stays}
use squid_script.Vm.Instructions.Safe.{expect_i32-Settles, expect_sqbc-Settles}
use squid_script.Vm.Builtins.Operands.Safe.{
  ◌⨾◌, expect_bool-Settles, optional_string-Settles, optional_color-Settles, pop_as-Stays,
  color-Stays, named-Stays, optional_named-Stays, resolver-Stays, service-Stays, draws-Stays,
  answered-Stays,
}
use squid_script.Vm.Builtins.Records.Safe.{display_info_record-Stays}
use squid_script.Vm.Builtins.Display.{
  on_display_clear, on_display_text, on_display_rect, on_display_line, on_display_select,
  on_display_refresh_mode, on_display_image, on_display_draw, on_display_info,
  on_hardware_gpio_write, on_hardware_gpio_toggle, on_hardware_gpio_read,
  on_service_indicator_write, on_service_indicator_toggle, on_service_indicator_breathe,
  on_service_indicator_blink, on_service_indicator_read, display_arms,
}

module _ {H : Type 0} (max : ℕ) (host : Host H) (returns : Returns host) where
  on_display_clear-Stays : Stays (on_display_clear max host)
  unfolding on_display_clear
  on_display_clear-Stays =
      Stays-bind _ _ (pop_as-Stays expect_i32 expect_i32-Settles)
        λ value. Stays-bind _ _ (color-Stays value) λ color. draws-Stays host (draw_clear color)

  on_display_text-Stays : Stays (on_display_text max host)
  unfolding on_display_text
  on_display_text-Stays =
      Stays-bind _ _ (pop_as-Stays optional_string optional_string-Settles) λ valign_id.
        Stays-bind _ _ (pop_as-Stays optional_string optional_string-Settles) λ align_id.
          Stays-bind _ _ (pop_as-Stays optional_color optional_color-Settles) λ background_color.
            Stays-bind _ _ (pop_as-Stays optional_color optional_color-Settles) λ text_color.
              Stays-bind _ _ (pop_as-Stays expect_i32 expect_i32-Settles) λ font_height.
                Stays-bind _ _ (pop_as-Stays expect_i32 expect_i32-Settles) λ h.
                  Stays-bind _ _ (pop_as-Stays expect_i32 expect_i32-Settles) λ w.
                    Stays-bind _ _ (pop_as-Stays expect_i32 expect_i32-Settles) λ y.
                      Stays-bind _ _ (pop_as-Stays expect_i32 expect_i32-Settles) λ x.
                        Stays-bind _ _ (pop-Stays) λ text.
                          Stays-bind _ _ (resolver-Stays) λ strings.
                            Stays-bind _ _ (optional_named-Stays max align_id) λ align.
                              Stays-bind _ _ (optional_named-Stays max valign_id) λ valign.
                                draws-Stays host (
                                  draw_text strings text (record {
                                    x = x;
                                    y = y;
                                    w = w;
                                    h = h;
                                    font_height = font_height;
                                    text_color = text_color;
                                    background_color = background_color;
                                    align = align;
                                    valign = valign;
                                  }))

  on_display_rect-Stays : Stays (on_display_rect max host)
  unfolding on_display_rect
  on_display_rect-Stays =
      Stays-bind _ _ (pop_as-Stays optional_color optional_color-Settles) λ stroke_color.
        Stays-bind _ _ (pop_as-Stays optional_color optional_color-Settles) λ fill_color.
          Stays-bind _ _ (pop_as-Stays expect_i32 expect_i32-Settles) λ h.
            Stays-bind _ _ (pop_as-Stays expect_i32 expect_i32-Settles) λ w.
              Stays-bind _ _ (pop_as-Stays expect_i32 expect_i32-Settles) λ y.
                Stays-bind _ _ (pop_as-Stays expect_i32 expect_i32-Settles) λ x. draws-Stays host (
                  draw_rect (record {
                    x = x;
                    y = y;
                    w = w;
                    h = h;
                    fill_color = fill_color;
                    stroke_color = stroke_color;
                  }))

  on_display_line-Stays : Stays (on_display_line max host)
  unfolding on_display_line
  on_display_line-Stays =
      Stays-bind _ _ (pop_as-Stays optional_color optional_color-Settles) λ color.
        Stays-bind _ _ (pop_as-Stays expect_i32 expect_i32-Settles) λ y2.
          Stays-bind _ _ (pop_as-Stays expect_i32 expect_i32-Settles) λ x2.
            Stays-bind _ _ (pop_as-Stays expect_i32 expect_i32-Settles) λ y1.
              Stays-bind _ _ (pop_as-Stays expect_i32 expect_i32-Settles) λ x1.
                draws-Stays host
                  (draw_line (record { x1 = x1; y1 = y1; x2 = x2; y2 = y2; color = color }))

  on_display_select-Stays : Stays (on_display_select max host)
  unfolding on_display_select
  on_display_select-Stays = Stays-bind _ _ (pop_as-Stays expect_sqbc expect_sqbc-Settles) λ name_id.
      Stays-bind _ _ (named-Stays max name_id) λ name. service-Stays host returns (draw_select name)

  on_display_refresh_mode-Stays : Stays (on_display_refresh_mode max host)
  unfolding on_display_refresh_mode
  on_display_refresh_mode-Stays =
      Stays-bind _ _ (pop_as-Stays expect_sqbc expect_sqbc-Settles) λ mode_id.
        Stays-bind _ _ (named-Stays max mode_id) λ mode. draws-Stays host (draw_refresh_mode mode)

  on_display_image-Stays : Stays (on_display_image max host)
  unfolding on_display_image
  on_display_image-Stays = Stays-bind _ _ (pop_as-Stays expect_i32 expect_i32-Settles) λ h.
      Stays-bind _ _ (pop_as-Stays expect_i32 expect_i32-Settles) λ w.
        Stays-bind _ _ (pop_as-Stays expect_i32 expect_i32-Settles) λ y.
          Stays-bind _ _ (pop_as-Stays expect_i32 expect_i32-Settles) λ x.
            Stays-bind _ _ (pop_as-Stays expect_sqbc expect_sqbc-Settles) λ path_id.
              Stays-bind _ _ (named-Stays max path_id)
                λ path. draws-Stays host (draw_image path (record { x = x; y = y; w = w; h = h }))

  on_display_draw-Stays : Stays (on_display_draw max host)
  unfolding on_display_draw
  on_display_draw-Stays = Stays-bind _ _ (pop_as-Stays expect_i32 expect_i32-Settles) λ h.
      Stays-bind _ _ (pop_as-Stays expect_i32 expect_i32-Settles) λ w.
        Stays-bind _ _ (pop_as-Stays expect_i32 expect_i32-Settles) λ y.
          Stays-bind _ _ (pop_as-Stays expect_i32 expect_i32-Settles) λ x.
            Stays-bind _ _ (pop-Stays) λ target. Stays-bind _ _ (resolver-Stays) λ strings.
              draws-Stays host
                (draw_resource strings target (record { x = x; y = y; w = w; h = h }))

  on_display_info-Stays : Stays (on_display_info max host)
  unfolding on_display_info
  on_display_info-Stays =
      answered-Stays (service host display_info) (display_info_record max)
        (service-Stays host returns display_info) (display_info_record-Stays max)

  on_hardware_gpio_write-Stays : Stays (on_hardware_gpio_write max host)
  unfolding on_hardware_gpio_write
  on_hardware_gpio_write-Stays =
      Stays-bind _ _ (pop_as-Stays expect_sqbc expect_sqbc-Settles) λ name_id.
        Stays-bind _ _ (pop_as-Stays expect_bool expect_bool-Settles) λ value.
          Stays-bind _ _ (named-Stays max name_id)
            λ name. service-Stays host returns (hardware_gpio_write name value)

  on_hardware_gpio_toggle-Stays : Stays (on_hardware_gpio_toggle max host)
  unfolding on_hardware_gpio_toggle
  on_hardware_gpio_toggle-Stays =
      Stays-bind _ _ (pop_as-Stays expect_sqbc expect_sqbc-Settles) λ name_id.
        Stays-bind _ _ (named-Stays max name_id)
          λ name. service-Stays host returns (hardware_gpio_toggle name)

  on_hardware_gpio_read-Stays : Stays (on_hardware_gpio_read max host)
  unfolding on_hardware_gpio_read
  on_hardware_gpio_read-Stays =
      Stays-bind _ _ (pop_as-Stays expect_sqbc expect_sqbc-Settles) λ name_id.
        Stays-bind _ _ (named-Stays max name_id) λ name.
          Stays-bind _ _ (service-Stays host returns (hardware_gpio_read name))
            λ value. push-Stays (bool_value value)

  on_service_indicator_write-Stays : Stays (on_service_indicator_write max host)
  unfolding on_service_indicator_write
  on_service_indicator_write-Stays =
      Stays-bind _ _ (pop_as-Stays expect_bool expect_bool-Settles)
        λ value. service-Stays host returns (service_indicator_write value)

  on_service_indicator_toggle-Stays : Stays (on_service_indicator_toggle max host)
  unfolding on_service_indicator_toggle
  on_service_indicator_toggle-Stays = service-Stays host returns service_indicator_toggle

  on_service_indicator_breathe-Stays : Stays (on_service_indicator_breathe max host)
  unfolding on_service_indicator_breathe
  on_service_indicator_breathe-Stays = service-Stays host returns service_indicator_breathe

  on_service_indicator_blink-Stays : Stays (on_service_indicator_blink max host)
  unfolding on_service_indicator_blink
  on_service_indicator_blink-Stays =
      Stays-bind _ _ (pop_as-Stays expect_i32 expect_i32-Settles) λ off_ms.
        Stays-bind _ _ (pop_as-Stays expect_i32 expect_i32-Settles)
          λ on_ms. service-Stays host returns (service_indicator_blink on_ms off_ms)

  on_service_indicator_read-Stays : Stays (on_service_indicator_read max host)
  unfolding on_service_indicator_read
  on_service_indicator_read-Stays =
      Stays-bind _ _ (service-Stays host returns service_indicator_read)
        λ value. push-Stays (bool_value value)

  pub display_arms-Stay : All (λ (arm : ℕ × M H (Unit {0})). Stays arm.1) (display_arms max host)
  display_arms-Stay =
      on_display_clear-Stays ⨾ on_display_text-Stays ⨾ on_display_rect-Stays ⨾ on_display_line-Stays
      ⨾ on_display_select-Stays ⨾ on_display_refresh_mode-Stays ⨾ on_display_image-Stays
      ⨾ on_display_draw-Stays ⨾ on_display_info-Stays ⨾ on_hardware_gpio_write-Stays
      ⨾ on_hardware_gpio_toggle-Stays ⨾ on_hardware_gpio_read-Stays
      ⨾ on_service_indicator_write-Stays ⨾ on_service_indicator_toggle-Stays
      ⨾ on_service_indicator_breathe-Stays ⨾ on_service_indicator_blink-Stays
      ⨾ on_service_indicator_read-Stays ⨾ tt
