-- ===== src/Vm/Builtins/Display.antt =====
-- compiler/rust/crates/squidvm-core/src/vm.rs: the arms of `call_builtin` for the screen and the pins.
pub mod Safe
use squid_script.Base.{ℕ, List, [], ◌∷◌}
use squid_script.Vm.Values.{bool_value, expect_i32}
use squid_script.Vm.Services.{
  draw_clear, draw_text, draw_rect, draw_line, draw_refresh_mode, draw_image, draw_resource,
  draw_select, display_info, hardware_gpio_write, hardware_gpio_toggle, hardware_gpio_read,
  service_indicator_write, service_indicator_toggle, service_indicator_breathe,
  service_indicator_blink, service_indicator_read,
}
use squid_script.Vm.Machine.{Host}
use squid_script.Vm.Exec.{M, ◌>>=◌, ◌>>◌, reads, push, pop}
use squid_script.Vm.Instructions.{expect_sqbc}
use squid_script.Vm.Builtins.Operands.{
  display_color, expect_bool, optional_string, optional_color, pop_as, named, optional_named,
  resolver, service, draws, answered,
}
use squid_script.Vm.Builtins.Records.{display_info_record}

module _ {H : Type 0} (max : ℕ) (host : Host H) where
  unfoldable pub on_display_clear : M H (Unit {0})
  unfolding pop_as draws display_color
  on_display_clear = do
    value ← pop_as expect_i32
    color ← reads (λ _. display_color value)
    draws host (draw_clear color)

  unfoldable pub on_display_text : M H (Unit {0})
  unfolding pop_as pop optional_named resolver draws
  on_display_text = do
    valign_id ← pop_as optional_string
    align_id ← pop_as optional_string
    background_color ← pop_as optional_color
    text_color ← pop_as optional_color
    font_height ← pop_as expect_i32
    h ← pop_as expect_i32
    w ← pop_as expect_i32
    y ← pop_as expect_i32
    x ← pop_as expect_i32
    text ← pop
    strings ← resolver
    align ← optional_named max align_id
    valign ← optional_named max valign_id
    draws host (
        draw_text strings text (record {
          x = x;
          y = y;
          w = w;
          h = h;
          font_height = font_height;
          text_color = text_color;
          background_color = background_color;
          align = align;
          valign = valign;
        }))

  unfoldable pub on_display_rect : M H (Unit {0})
  unfolding pop_as draws
  on_display_rect = do
    stroke_color ← pop_as optional_color
    fill_color ← pop_as optional_color
    h ← pop_as expect_i32
    w ← pop_as expect_i32
    y ← pop_as expect_i32
    x ← pop_as expect_i32
    draws host (
        draw_rect (record {
          x = x;
          y = y;
          w = w;
          h = h;
          fill_color = fill_color;
          stroke_color = stroke_color;
        }))

  unfoldable pub on_display_line : M H (Unit {0})
  unfolding pop_as draws
  on_display_line = do
    color ← pop_as optional_color
    y2 ← pop_as expect_i32
    x2 ← pop_as expect_i32
    y1 ← pop_as expect_i32
    x1 ← pop_as expect_i32
    draws host (draw_line (record { x1 = x1; y1 = y1; x2 = x2; y2 = y2; color = color }))

  unfoldable pub on_display_select : M H (Unit {0})
  unfolding pop_as named service
  on_display_select = do
    name_id ← pop_as expect_sqbc
    name ← named max name_id
    service host (draw_select name)

  unfoldable pub on_display_refresh_mode : M H (Unit {0})
  unfolding pop_as named draws
  on_display_refresh_mode = do
    mode_id ← pop_as expect_sqbc
    mode ← named max mode_id
    draws host (draw_refresh_mode mode)

  unfoldable pub on_display_image : M H (Unit {0})
  unfolding pop_as named draws
  on_display_image = do
    h ← pop_as expect_i32
    w ← pop_as expect_i32
    y ← pop_as expect_i32
    x ← pop_as expect_i32
    path_id ← pop_as expect_sqbc
    path ← named max path_id
    draws host (draw_image path (record { x = x; y = y; w = w; h = h }))

  unfoldable pub on_display_draw : M H (Unit {0})
  unfolding pop_as pop resolver draws
  on_display_draw = do
    h ← pop_as expect_i32
    w ← pop_as expect_i32
    y ← pop_as expect_i32
    x ← pop_as expect_i32
    target ← pop
    strings ← resolver
    draws host (draw_resource strings target (record { x = x; y = y; w = w; h = h }))

  unfoldable pub on_display_info : M H (Unit {0})
  unfolding service answered display_info_record
  on_display_info = answered (service host display_info) (display_info_record max)

  unfoldable pub on_hardware_gpio_write : M H (Unit {0})
  unfolding pop_as named service
  on_hardware_gpio_write = do
    name_id ← pop_as expect_sqbc
    value ← pop_as expect_bool
    name ← named max name_id
    service host (hardware_gpio_write name value)

  unfoldable pub on_hardware_gpio_toggle : M H (Unit {0})
  unfolding pop_as named service
  on_hardware_gpio_toggle = do
    name_id ← pop_as expect_sqbc
    name ← named max name_id
    service host (hardware_gpio_toggle name)

  unfoldable pub on_hardware_gpio_read : M H (Unit {0})
  unfolding pop_as named service push
  on_hardware_gpio_read = do
    name_id ← pop_as expect_sqbc
    name ← named max name_id
    value ← service host (hardware_gpio_read name)
    push (bool_value value)

  unfoldable pub on_service_indicator_write : M H (Unit {0})
  unfolding pop_as service
  on_service_indicator_write = do
    value ← pop_as expect_bool
    service host (service_indicator_write value)

  unfoldable pub on_service_indicator_toggle : M H (Unit {0})
  unfolding service
  on_service_indicator_toggle = service host service_indicator_toggle

  unfoldable pub on_service_indicator_breathe : M H (Unit {0})
  unfolding service
  on_service_indicator_breathe = service host service_indicator_breathe

  unfoldable pub on_service_indicator_blink : M H (Unit {0})
  unfolding pop_as service
  on_service_indicator_blink = do
    off_ms ← pop_as expect_i32
    on_ms ← pop_as expect_i32
    service host (service_indicator_blink on_ms off_ms)

  unfoldable pub on_service_indicator_read : M H (Unit {0})
  unfolding service push
  on_service_indicator_read = do
    value ← service host service_indicator_read
    push (bool_value value)

  -- The arms, by their numbers.
  abbrev pub display_arms : List (ℕ × M H (Unit {0}))
  display_arms =
      (0x30, on_display_clear)
      ∷ (0x31, on_display_text)
      ∷ (0x32, on_display_rect)
      ∷ (0x33, on_display_line)
      ∷ (0x34, on_display_select)
      ∷ (0x38, on_display_refresh_mode)
      ∷ (0x35, on_display_image)
      ∷ (0x36, on_display_draw)
      ∷ (0x37, on_display_info)
      ∷ (0x40, on_hardware_gpio_write)
      ∷ (0x41, on_hardware_gpio_toggle)
      ∷ (0x42, on_hardware_gpio_read)
      ∷ (0x48, on_service_indicator_write)
      ∷ (0x49, on_service_indicator_toggle)
      ∷ (0x4b, on_service_indicator_breathe)
      ∷ (0x4c, on_service_indicator_blink)
      ∷ (0x4a, on_service_indicator_read)
      ∷ []
