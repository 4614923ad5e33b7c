-- ===== src/Vm/Tables/Entries.antt =====
-- compiler/rust/crates/squidvm-core/src/program.rs: the tables that the parsers accept.
use squid_script.Base.{
  ℕ, zero, suc, ◌+◌, ◌≤◌, ◌<◌, ◌^◌, ◌≡◌, refl, subst, true, ◌&&◌, Option, none, some, List, [], ◌∷◌,
  All, length, leb, ◌==◌, Result, ok, >>=-eq-ok, guard, guard-eq-ok, arith,
}
use squid_script.Base.Utf8.{is_utf8}
use squid_script.Vm.Limits.{
  max_strings, max_functions, max_handlers, max_triggers, max_screens, max_locals,
}
use squid_script.Vm.Values.{
  VmError, invalid_section, invalid_utf8, byte_at, read_u16, read_u32, read_i32,
}
use squid_script.Vm.Sqbc.{checked_end}
use squid_script.Vm.Tables.{
  Function, Handler, TriggerTimerMeta, Screen, parse_entries, parse_table, validate_range,
  raw_string, parse_string, parse_strings, parse_function, parse_functions, parse_handler,
  parse_handlers, is_interval, parse_trigger_timer, parse_trigger_timers, parse_screen,
  parse_screens,
}

-- What holds of every entry that `entry` reads.
abbrev pub Yields {ℓ κ} :
    {A : Type ℓ} → (A → Type κ) → (List ℕ → ℕ → Result VmError (A × ℕ)) → Type (ℓ ⊔ κ)
Yields {A = A} P entry =
    (bytes : List ℕ) (cursor : ℕ) (x : A) (next : ℕ) → entry bytes cursor ≡ ok (x, next) → P x

module _ {ℓ κ} {A : Type ℓ} (P : A → Type κ) (entry : List ℕ → ℕ → Result VmError (A × ℕ))
    (yields : Yields P entry) where
  parse_entries-All :
      (n : ℕ) (bytes : List ℕ) (cursor : ℕ) (xs : List A) (last : ℕ)
      → parse_entries entry n bytes cursor ≡ ok (xs, last)
      → (length xs ≡ n) × All P xs
  unfolding parse_entries
  parse_entries-All zero bytes cursor xs last e =
      let same : [] ≡ xs = ground arith in rw (← same) (refl, tt)
  parse_entries-All (suc n) bytes cursor xs last e =
      let ((x, c), one, e₁) = >>=-eq-ok (entry bytes cursor) _ e in
      let ((rest, c'), more, e₂) = >>=-eq-ok (parse_entries entry n bytes c) _ e₁ in
      let (size, all) = parse_entries-All n bytes c rest c' more in
      let same : x ∷ rest ≡ xs = ground arith in
      subst (λ t. (length t ≡ suc n) × All P t) same
        (omega arith, (yields bytes cursor x c one, all))

  pub parse_table-All :
      (refusal : VmError) (limit : ℕ) (bytes : List ℕ) (xs : List A)
      → parse_table refusal limit entry bytes ≡ ok xs
      → (length xs ≤ limit) × All P xs
  unfolding parse_table
  parse_table-All refusal limit bytes xs e =
      let (n, _, e₁) = >>=-eq-ok (read_u16 bytes 0) _ e in
      let (u, few, e₂) = >>=-eq-ok (guard (leb n limit) refusal) _ e₁ in
      let ((got, c), read, e₃) = >>=-eq-ok (parse_entries entry n bytes 2) _ e₂ in
      let (u', _, e₄) = >>=-eq-ok (guard (c == length bytes) invalid_section) _ e₃ in
      let room = guard-eq-ok (leb n limit) refusal few in
      let (size, all) = parse_entries-All n bytes 2 got c read in
      let same : got ≡ xs = ground arith in
      subst (λ t. (length t ≤ limit) × All P t) same (ground arith, all)

validate_range-le :
    (max start len total : ℕ) {u : Unit {0}}
    → validate_range max start len total ≡ ok u
    → start + len ≤ total
unfolding validate_range checked_end
validate_range-le max start len total e = ground arith

-- The range lies in the code.
abbrev pub InCode : ℕ → ℕ → ℕ → Type 0
InCode code_len start len = start + len ≤ code_len

abbrev pub IsFunction : ℕ → Function → Type 0
IsFunction code_len f = InCode code_len f.start f.len

abbrev pub IsHandler : ℕ → Handler → Type 0
IsHandler code_len h =
    (h.param_count ≤ h.local_count) × (h.local_count ≤ max_locals) × InCode code_len h.start h.len

abbrev pub IsTimer : TriggerTimerMeta → Type 0
IsTimer t = (0 < t.interval_ms) × (t.interval_ms < 2 ^ 31)

abbrev pub IsScreen : ℕ → Screen → Type 0
IsScreen code_len s = InCode code_len s.start s.len

abbrev pub IsUtf8 : List ℕ → Type 0
IsUtf8 s = is_utf8 s ≡ true

parse_string-IsUtf8 : (max : ℕ) → Yields IsUtf8 (parse_string max)
unfolding parse_string
parse_string-IsUtf8 max bytes cursor x next e =
    let ((raw, end), _, e₁) = >>=-eq-ok (raw_string max bytes cursor) _ e in
    let (u, fine, e₂) = >>=-eq-ok (guard (is_utf8 raw) invalid_utf8) _ e₁ in
    let valid = guard-eq-ok (is_utf8 raw) invalid_utf8 fine in
    let same : raw ≡ x = ground arith in rw (← same) valid

parse_function-IsFunction :
    (max code_len : ℕ) → Yields (IsFunction code_len) (parse_function max code_len)
unfolding parse_function
parse_function-IsFunction max code_len bytes cursor x next e =
    let (id, _, e₁) = >>=-eq-ok (read_u16 bytes cursor) _ e in
    let (params, _, e₂) = >>=-eq-ok (read_u16 bytes (cursor + 2)) _ e₁ in
    let (locals, _, e₃) = >>=-eq-ok (read_u16 bytes (cursor + 4)) _ e₂ in
    let (start, _, e₄) = >>=-eq-ok (read_u32 bytes (cursor + 6)) _ e₃ in
    let (len, _, e₅) = >>=-eq-ok (read_u32 bytes (cursor + 10)) _ e₄ in
    let (u, fits, e₆) = >>=-eq-ok (validate_range max start len code_len) _ e₅ in
    let within = validate_range-le max start len code_len fits in ground arith

parse_screen-IsScreen : (max code_len : ℕ) → Yields (IsScreen code_len) (parse_screen max code_len)
unfolding parse_screen
parse_screen-IsScreen max code_len bytes cursor x next e =
    let (id, _, e₁) = >>=-eq-ok (read_u16 bytes cursor) _ e in
    let (start, _, e₂) = >>=-eq-ok (read_u32 bytes (cursor + 2)) _ e₁ in
    let (len, _, e₃) = >>=-eq-ok (read_u32 bytes (cursor + 6)) _ e₂ in
    let (u, fits, e₄) = >>=-eq-ok (validate_range max start len code_len) _ e₃ in
    let within = validate_range-le max start len code_len fits in ground arith

parse_trigger_timer-IsTimer : Yields IsTimer parse_trigger_timer
unfolding parse_trigger_timer
parse_trigger_timer-IsTimer bytes cursor x next e =
    let (id, _, e₁) = >>=-eq-ok (read_u16 bytes cursor) _ e in
    let (repeating, _, e₂) = >>=-eq-ok (byte_at bytes (cursor + 2)) _ e₁ in
    let (reserved, _, e₃) = >>=-eq-ok (byte_at bytes (cursor + 3)) _ e₂ in
    let (interval, _, e₄) = >>=-eq-ok (read_i32 bytes (cursor + 4)) _ e₃ in
    let (u, fine, e₅) =
      >>=-eq-ok (guard ((reserved == 0) && is_interval interval) invalid_section) _ e₄ in
    let sound = guard-eq-ok ((reserved == 0) && is_interval interval) invalid_section fine in
    ground arith

parse_handler-IsHandler :
    (max code_len : ℕ) → Yields (IsHandler code_len) (parse_handler max code_len)
unfolding parse_handler
parse_handler-IsHandler max code_len bytes cursor x next e =
    let (id, _, e₁) = >>=-eq-ok (read_u16 bytes cursor) _ e in
    let (preload, _, e₂) = >>=-eq-ok (byte_at bytes (cursor + 2)) _ e₁ in
    let (reserved, _, e₃) = >>=-eq-ok (byte_at bytes (cursor + 3)) _ e₂ in
    let (params, _, e₄) = >>=-eq-ok (read_u16 bytes (cursor + 4)) _ e₃ in
    let (locals, _, e₅) = >>=-eq-ok (read_u16 bytes (cursor + 6)) _ e₄ in
    let (start, _, e₆) = >>=-eq-ok (read_u32 bytes (cursor + 8)) _ e₅ in
    let (len, _, e₇) = >>=-eq-ok (read_u32 bytes (cursor + 12)) _ e₆ in
    let (u, fine, e₈) = >>=-eq-ok (guard _ invalid_section) _ e₇ in
    let sound =
      guard-eq-ok ((reserved == 0) && leb params locals && leb locals max_locals) invalid_section
        fine in
    let (u', fits, e₉) = >>=-eq-ok (validate_range max start len code_len) _ e₈ in
    let within = validate_range-le max start len code_len fits in ground arith

pub parse_strings-IsUtf8 :
    (max : ℕ) (bytes : List ℕ) (strings : List (List ℕ))
    → parse_strings max bytes ≡ ok strings
    → (length strings ≤ max_strings) × All IsUtf8 strings
unfolding parse_strings
parse_strings-IsUtf8 max bytes strings e =
    parse_table-All IsUtf8 (parse_string max) (parse_string-IsUtf8 max) _ _ bytes strings e

pub parse_functions-IsFunction :
    (max : ℕ) (bytes : List ℕ) (code_len : ℕ) (functions : List Function)
    → parse_functions max bytes code_len ≡ ok functions
    → (length functions ≤ max_functions) × All (IsFunction code_len) functions
unfolding parse_functions
parse_functions-IsFunction max bytes code_len functions e =
    parse_table-All _ _ (parse_function-IsFunction max code_len) _ _ bytes functions e

pub parse_handlers-IsHandler :
    (max : ℕ) (bytes : List ℕ) (code_len : ℕ) (handlers : List Handler)
    → parse_handlers max bytes code_len ≡ ok handlers
    → (length handlers ≤ max_handlers) × All (IsHandler code_len) handlers
unfolding parse_handlers
parse_handlers-IsHandler max bytes code_len handlers e =
    parse_table-All _ _ (parse_handler-IsHandler max code_len) _ _ bytes handlers e

pub parse_trigger_timers-IsTimer :
    (found : Option (List ℕ)) (timers : List TriggerTimerMeta)
    → parse_trigger_timers found ≡ ok timers
    → (length timers ≤ max_triggers) × All IsTimer timers
unfolding parse_trigger_timers
parse_trigger_timers-IsTimer none timers e =
    let same : [] ≡ timers = ground arith in rw (← same) (omega arith, tt)
parse_trigger_timers-IsTimer (some bytes) timers e =
    parse_table-All _ _ parse_trigger_timer-IsTimer _ _ bytes timers e

pub parse_screens-IsScreen :
    (max : ℕ) (found : Option (List ℕ)) (code_len : ℕ) (screens : List Screen)
    → parse_screens max found code_len ≡ ok screens
    → (length screens ≤ max_screens) × All (IsScreen code_len) screens
unfolding parse_screens
parse_screens-IsScreen max none code_len screens e =
    let same : [] ≡ screens = ground arith in rw (← same) (omega arith, tt)
parse_screens-IsScreen max (some bytes) code_len screens e =
    parse_table-All _ _ (parse_screen-IsScreen max code_len) _ _ bytes screens e
