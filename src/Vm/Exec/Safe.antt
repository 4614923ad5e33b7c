-- ===== src/Vm/Exec/Safe.antt =====
-- compiler/rust/crates/squidvm-core/src/vm.rs: the methods on the stack, the frames and the code keep a
-- machine valid.
use squid_script.Base.{
  Option, fitting, true, ◌%◌, ℕ, zero, suc, ◌+◌, ◌-◌, ◌≤◌, ◌<◌, ◌≡◌, inl, inr, refl, sym, subst,
  Bool, false, Bool-cases, bytes_eq, index-Settles, List, [], ◌∷◌, All, length, length-replicate,
  replicate, leb, ltb, ltb→lt, leb→le, get_elem?, ◌==◌, if◌then◌else◌, Result, ok, err, panic,
  stuck, Settles, Settles-if, Settles-bind, Settles-guard, ok_or-Settles, index, arith, none, some,
}
use squid_script.Base.Utf8.{is_utf8}
use squid_script.Vm.Limits.{max_locals, max_stack, max_call_depth, max_code_chunk_bytes}
use squid_script.Vm.Values.{
  VmError, chunk_too_large, invalid_jump, invalid_operand, invalid_utf8, Value, null,
}
use squid_script.Vm.Sqbc.{checked_end, get_range}
use squid_script.Vm.Tables.{PoolEntry}
use squid_script.Vm.Cache.{ChunkRef}
use squid_script.Vm.Program.{find_named}
use squid_script.Vm.ProgramIndex.{
  ProgramIndex, index_string, index_screen, index_handler, enumerate,
}
use squid_script.Vm.Services.{Service, service_wifi_scan_network, WifiAccessPoint, WifiScanNetwork}
use squid_script.Vm.Machine.{
  FrameKind, screen_frame, chunk_ref, not_pending, Frame, sqbc_read, Host, Machine, code_byte,
  read_u16_code, read_u32_code, index_find_from, index_find_string,
}
use squid_script.Vm.Exec.{
  M, ◌>>=◌, follow, ret, update, push, pop_from, pop, on_top, set_top, top_ip, operand_byte,
  operand_u16, operand_u32, enter_chunk, leave_chunk, code_end, push_resume_frame,
  push_screen_resume_frame, returns_value, complete_top, complete_resume_frame, asks, is_loaded,
  fetch_chunk, load_chunk_resumable,
}
use squid_script.Vm.Exec.Triples.{
  At, follow-reads, At-suc, Leaves, Stays, Grows, Stays-bind, Stays-then-Grows, ret-Stays,
  reads-Stays, guard-then-Stays, if-Stays,
}

pub checked_end-Settles : (max start len : ℕ) → Settles (checked_end max start len)
unfolding checked_end
checked_end-Settles max start len = ground arith

pub get_range-Settles : (bytes : List ℕ) (start end : ℕ) → Settles (get_range bytes start end)
unfolding get_range
get_range-Settles bytes start end = ground arith

entry-Settles :
    (xs : List PoolEntry) (id : ℕ) → id < length xs → Settles (index {E = VmError} xs id)
entry-Settles xs id h = index-Settles VmError xs id h

pub index_string-Settles : (max : ℕ) (x : ProgramIndex) (id : ℕ) → Settles (index_string max x id)
unfolding index_string
index_string-Settles max x id = Settles-guard (ltb id (length x.strings)) invalid_operand _ λ lt.
    Settles-bind (index x.strings id) _
      (entry-Settles x.strings id (ltb→lt id (length x.strings) lt))
      λ e _.
        Settles-bind (checked_end max e.string_offset e.string_len) _
          (checked_end-Settles max e.string_offset e.string_len)
          λ end _.
            Settles-bind (get_range x.string_bytes e.string_offset end) _
              (get_range-Settles x.string_bytes e.string_offset end)
              λ raw _. Settles-guard (is_utf8 raw) invalid_utf8 (ok raw) (λ _. tt)

find_named-Settles {ℓ} :
    {A : Type ℓ} (name : A → Result VmError (List ℕ)) (missing : VmError) (wanted : List ℕ)
    (xs : List A)
    → ((x : A) → Settles (name x))
    → Settles (find_named name missing wanted xs)
unfolding find_named
find_named-Settles name missing wanted [] h = tt
find_named-Settles name missing wanted (x ∷ xs) h = Settles-bind (name x) _ (h x) λ own _.
    Settles-if (bytes_eq own wanted) (ok x) (find_named name missing wanted xs) tt
      (find_named-Settles name missing wanted xs h)

pub index_screen-Settles :
    (max : ℕ) (x : ProgramIndex) (name : List ℕ) → Settles (index_screen max x name)
unfolding index_screen
index_screen-Settles max x name =
    find_named-Settles _ _ name (enumerate 0 x.screens)
      (λ s. index_string-Settles max x s.1.name_id)

pub index_handler-Settles :
    (max : ℕ) (x : ProgramIndex) (event : List ℕ) → Settles (index_handler max x event)
unfolding index_handler
index_handler-Settles max x event =
    find_named-Settles _ _ event (enumerate 0 x.handlers)
      (λ h. index_string-Settles max x h.1.event_id)

index_find_from-Settles :
    (max : ℕ) (x : ProgramIndex) (value : List ℕ) (id n : ℕ)
    → Settles (index_find_from max x value id n)
unfolding index_find_from
index_find_from-Settles max x value id zero = tt
index_find_from-Settles max x value id (suc n) =
    Settles-bind (index_string max x id) _ (index_string-Settles max x id) λ s _.
      Settles-if (bytes_eq s value) (ok (some id)) (index_find_from max x value (suc id) n) tt
        (index_find_from-Settles max x value (suc id) n)

pub index_find_string-Settles :
    (max : ℕ) (x : ProgramIndex) (value : List ℕ) → Settles (index_find_string max x value)
unfolding index_find_string
index_find_string-Settles max x value = index_find_from-Settles max x value 0 (length x.strings)

code_byte-Settles : (code : List ℕ) (start offset : ℕ) → Settles (code_byte code start offset)
unfolding code_byte
code_byte-Settles code start offset =
    Settles-if (ltb offset start) (err invalid_jump) _ tt
      (ok_or-Settles (get_elem? code (offset - start)) invalid_jump)

read_u16_code-Settles :
    (code : List ℕ) (start offset : ℕ) → Settles (read_u16_code code start offset)
unfolding read_u16_code
read_u16_code-Settles code start offset =
    Settles-bind (code_byte code start offset) _ (code_byte-Settles code start offset) λ _ _.
      Settles-bind (code_byte code start (offset + 1)) _ (code_byte-Settles code start (offset + 1))
        λ _ _. tt

pub read_u32_code-Settles :
    (code : List ℕ) (start offset : ℕ) → Settles (read_u32_code code start offset)
unfolding read_u32_code
read_u32_code-Settles code start offset =
    Settles-bind (code_byte code start offset) _ (code_byte-Settles code start offset) λ _ _.
      Settles-bind (code_byte code start (offset + 1)) _ (code_byte-Settles code start (offset + 1))
        λ _ _.
          Settles-bind (code_byte code start (offset + 2)) _
            (code_byte-Settles code start (offset + 2))
            λ _ _.
              Settles-bind (code_byte code start (offset + 3)) _
                (code_byte-Settles code start (offset + 3)) λ _ _. tt

code_end-Settles : (max code_len start len : ℕ) → Settles (code_end max code_len start len)
unfolding code_end
code_end-Settles max code_len start len = ground arith

length-on_top : (g : Frame → Frame) (frames : List Frame) → length (on_top g frames) ≡ length frames
length-on_top g [] = refl
length-on_top g (h ∷ hs) = refl

on_top-All :
    (g : Frame → Frame) (frames : List Frame)
    → ((h : Frame) → length h.locals ≡ max_locals → length (g h).locals ≡ max_locals)
    → All (λ (h : Frame). length h.locals ≡ max_locals) frames
    → All (λ (h : Frame). length h.locals ≡ max_locals) (on_top g frames)
on_top-All g [] keeps all = tt
on_top-All g (h ∷ hs) keeps all = (keeps h all.0, all.1)

abbrev new_frame : FrameKind → ℕ → ℕ → ℕ → Frame
new_frame kind start end depth = record {
  kind = kind;
  start = start;
  end = end;
  ip = start;
  locals = replicate max_locals null;
  depth = depth;
  pending = not_pending;
}

module _ {H : Type 0} where
  -- A machine with the same stack, frames, strings and count.
  pub At-same :
      (i f : ℕ) (s t : Machine H)
      → t.stack ≡ s.stack
      → t.frames ≡ s.frames
      → t.strings ≡ s.strings
      → t.instructions ≡ s.instructions
      → At i f s
      → At i f t
  At-same i f s t stack frames strings count at = record {
    valid = record {
      stack_fits = rw stack at.valid.stack_fits;
      frames_fit = rw frames at.valid.frames_fit;
      locals_full = rw frames at.valid.locals_full;
      strings_acyclic = rw strings at.valid.strings_acyclic;
    };
    counted = rw count at.counted;
    frames_below = rw frames at.frames_below;
  }

  -- A machine with another stack.
  pub At-stack :
      (i f : ℕ) (s : Machine H) (stack : List Value)
      → length stack ≤ max_stack
      → At i f s
      → At i f (record s { stack = stack })
  At-stack i f s stack fits at = record {
    valid = record {
      stack_fits = fits;
      frames_fit = at.valid.frames_fit;
      locals_full = at.valid.locals_full;
      strings_acyclic = at.valid.strings_acyclic;
    };
    counted = at.counted;
    frames_below = at.frames_below;
  }

  -- A machine with other frames.
  At-frames :
      (i f g : ℕ) (s : Machine H) (frames : List Frame)
      → length frames ≤ suc max_call_depth
      → length frames ≤ g
      → All (λ (h : Frame). length h.locals ≡ max_locals) frames
      → At i f s
      → At i g (record s { frames = frames })
  At-frames i f g s frames fits below locals at = record {
    valid = record {
      stack_fits = at.valid.stack_fits;
      frames_fit = fits;
      locals_full = locals;
      strings_acyclic = at.valid.strings_acyclic;
    };
    counted = at.counted;
    frames_below = below;
  }

  push-Leaves : (v : Value) (i f : ℕ) (s : Machine H) → At i f s → Leaves i f (push v s)
  unfolding push
  push-Leaves v i f s at = elim (Bool-cases (length s.stack == max_stack)) [
    | inl full ↦ rw (full, push) (at, tt)
    | inr room ↦
        let fits = at.valid.stack_fits in
        rw (room, push) (At-stack i f s (v ∷ s.stack) (ground arith) at, tt)
  ]

  pub push-Stays : (v : Value) → Stays {H = H} (push v)
  push-Stays v = record { stays = push-Leaves v }

  pop_from-Leaves :
      (i f : ℕ) (s : Machine H) (stack : List Value)
      → s.stack ≡ stack
      → At i f s
      → Leaves i f (pop_from stack s)
  unfolding pop_from
  pop_from-Leaves i f s [] same at = (at, tt)
  pop_from-Leaves i f s (v ∷ stack) same at =
      let fits = at.valid.stack_fits in
      let size : length s.stack ≡ suc (length stack) = rw same refl in
      (At-stack i f s stack (omega arith) at, tt)

  pub pop-Stays : Stays {H = H} pop
  unfolding pop
  pop-Stays = record { stays = λ i f s at. pop_from-Leaves i f s s.stack refl at }

  pub set_top-Stays :
      (g : Frame → Frame)
      → ((h : Frame) → length h.locals ≡ max_locals → length (g h).locals ≡ max_locals)
      → Stays {H = H} (set_top g)
  unfolding set_top
  set_top-Stays g keeps = record {
    stays = λ i f s at.
        let size = length-on_top g s.frames in
        let fits = at.valid.frames_fit in
        let below = at.frames_below in
        (
          At-frames i f f s (on_top g s.frames) (omega arith) (omega arith)
              (on_top-All g s.frames keeps at.valid.locals_full) at,
          tt,
        );
  }

  pub operand_byte-Stays : Stays {H = H} operand_byte
  unfolding operand_byte
  operand_byte-Stays =
      Stays-bind _ _ (reads-Stays _ (λ s _. code_byte-Settles s.code s.code_start (top_ip s)))
        λ b. Stays-bind _ _ (set_top-Stays _ (λ h e. e)) λ _. ret-Stays b

  pub operand_u16-Stays : Stays {H = H} operand_u16
  unfolding operand_u16
  operand_u16-Stays =
      Stays-bind _ _ (reads-Stays _ (λ s _. read_u16_code-Settles s.code s.code_start (top_ip s)))
        λ n. Stays-bind _ _ (set_top-Stays _ (λ h e. e)) λ _. ret-Stays n

  pub operand_u32-Stays : Stays {H = H} operand_u32
  unfolding operand_u32
  operand_u32-Stays =
      Stays-bind _ _ (reads-Stays _ (λ s _. read_u32_code-Settles s.code s.code_start (top_ip s)))
        λ n. Stays-bind _ _ (set_top-Stays _ (λ h e. e)) λ _. ret-Stays n

  pub enter_chunk-Stays :
      (key : ChunkRef) (preload : Bool) → Stays {H = H} (enter_chunk key preload)
  unfolding enter_chunk
  enter_chunk-Stays key preload = record {
    stays = λ i f s at. (At-same i f s _ refl refl refl refl at, tt);
  }

  leave_chunk-Stays : (key : ChunkRef) → Stays {H = H} (leave_chunk key)
  unfolding leave_chunk
  leave_chunk-Stays key = record {
    stays = λ i f s at. (At-same i f s _ refl refl refl refl at, tt);
  }

  pub load-Stays :
      (bytes : List ℕ) (start : ℕ)
      → Stays (update (λ (s : Machine H). record s { code = bytes; code_start = start }))
  load-Stays bytes start = record {
    stays = λ i f s at. (At-same i f s _ refl refl refl refl at, tt);
  }

  -- A call of the host that returns.
  pub asks-Stays :
      {A : Type 0} (ask : H → H × Result VmError A)
      → ((h : H) → Settles (ask h).1)
      → Stays (asks ask)
  asks-Stays ask returns = record {
    stays = λ i f s at. (At-same i f s _ refl refl refl refl at, returns s.host);
  }

  -- The rest may rely on what the host answers.
  pub asks-then-Stays :
      {A B : Type 0} (P : A → Type 0) (ask : H → H × Result VmError A) (k : A → M H B)
      → ((h : H) → Settles (ask h).1)
      → ((h : H) (a : A) → (ask h).1 ≡ ok a → P a)
      → ((a : A) → P a → Stays (k a))
      → Stays (asks ask >>= k)
  asks-then-Stays P ask k returns held rest = record {
    stays = λ i f s at.
        follow-reads P i f f (record s { host = (ask s.host).0 }) (ask s.host).1 k
          (At-same i f s _ refl refl refl refl at) (returns s.host) (held s.host)
          (λ a p. (rest a p).stays i f _ (At-same i f s _ refl refl refl refl at));
  }

  push_frame-Leaves :
      (i f : ℕ) (s : Machine H) (r : Result VmError ℕ) (kind : FrameKind) (start depth : ℕ)
      → length s.frames ≤ max_call_depth
      → Settles r
      → At i f s
      → Leaves i (suc f) (
          follow
            (s, r)
            (λ end.
              update (λ (t : Machine H). record t {
                frames = new_frame kind start end depth ∷ t.frames;
              })))
  push_frame-Leaves i f s (ok end) kind start depth room fine at =
      let below = at.frames_below in
      (
        At-frames i f (suc f) s (new_frame kind start end depth ∷ s.frames) (omega arith)
            (omega arith) (length-replicate max_locals null, at.valid.locals_full) at,
        tt,
      )
  push_frame-Leaves i f s (err e) kind start depth room fine at = (At-suc i f s at, tt)
  push_frame-Leaves i f s panic kind start depth room fine at = absurd fine
  push_frame-Leaves i f s stuck kind start depth room fine at = absurd fine

  pub push_resume_frame-Grows :
      (max : ℕ) (kind : FrameKind) (start len depth : ℕ)
      → Grows {H = H} (push_resume_frame max kind start len depth)
  unfolding push_resume_frame
  push_resume_frame-Grows max kind start len depth = record {
    grows = λ i f s at. elim (Bool-cases (leb depth max_call_depth)) [
      | inr deep ↦ rw (deep, push_resume_frame) (At-suc i f s at, tt)
      | inl shallow ↦ elim (Bool-cases (leb (length s.frames) max_call_depth)) [
        | inr full ↦ rw (shallow, full, push_resume_frame) (At-suc i f s at, tt)
        | inl room ↦
            rw (shallow, room, push_resume_frame)
              (push_frame-Leaves i f s (code_end max s.index.code_len start len) kind start depth
                (leb→le (length s.frames) max_call_depth room)
                (code_end-Settles max s.index.code_len start len) at)
      ]
    ];
  }

  pub push_screen_resume_frame-Grows :
      (max screen_id depth : ℕ) → Grows {H = H} (push_screen_resume_frame max screen_id depth)
  unfolding push_screen_resume_frame
  push_screen_resume_frame-Grows max screen_id depth =
      Stays-then-Grows _ _
        (reads-Stays (λ s. index_string max s.index screen_id)
          (λ s _. index_string-Settles max s.index screen_id))
        λ name.
          Stays-then-Grows _ _
            (reads-Stays (λ s. index_screen max s.index name)
              (λ s _. index_screen-Settles max s.index name))
            λ (place, screen).
              Stays-then-Grows _ _ (enter_chunk-Stays (chunk_ref (screen_frame place)) false)
                λ _. push_resume_frame-Grows max (screen_frame place) screen.start screen.len depth

  complete_rest-Stays :
      (frame : Frame) (frames : List Frame) (value : Value)
      → Stays {H = H} (if returns_value frame.kind frames then push value else ret tt)
  complete_rest-Stays frame frames value =
      if-Stays (returns_value frame.kind frames) (push value) (ret tt) (push-Stays value)
        (ret-Stays tt)

  -- The last frame goes: there is room for one less.
  complete_top-Leaves :
      (i f : ℕ) (s : Machine H) (frame : Frame) (frames : List Frame) (value : Value)
      → s.frames ≡ frame ∷ frames
      → At i (suc f) s
      → Leaves i f (complete_top (frame ∷ frames) value s)
  unfolding complete_top leave_chunk
  complete_top-Leaves i f s frame frames value same at =
      let (left, _) = (leave_chunk-Stays (chunk_ref frame.kind)).stays i (suc f) s at in
      let size : length s.frames ≡ suc (length frames) = rw same refl in
      let fits = at.valid.frames_fit in
      let below = at.frames_below in
      let locals : All (λ (h : Frame). length h.locals ≡ max_locals) (frame ∷ frames) =
        rw same at at.valid.locals_full in
      (complete_rest-Stays frame frames value).stays i f _ (
        At-frames i (suc f) f (leave_chunk (chunk_ref frame.kind) s).0 frames (omega arith)
          (omega arith) locals.1 left)

  complete_nothing :
      (i f : ℕ) (s : Machine H) (value : Value) → At i f s → Leaves i f (complete_top [] value s)
  unfolding complete_top
  complete_nothing i f s value at = (at, tt)

  complete_top_any :
      (i f : ℕ) (s : Machine H) (frames : List Frame) (value : Value)
      → s.frames ≡ frames
      → At i f s
      → Leaves i f (complete_top frames value s)
  complete_top_any i f s [] value same at = complete_nothing i f s value at
  complete_top_any i f s (frame ∷ frames) value same at =
      complete_top-Leaves i f s frame frames value same (At-suc i f s at)

  pub complete_resume_frame-Stays : (value : Value) → Stays {H = H} (complete_resume_frame value)
  unfolding complete_resume_frame
  complete_resume_frame-Stays value = record {
    stays = λ i f s at. complete_top_any i f s s.frames value refl at;
  }

  -- With a frame to complete, there is one frame less.
  pub complete_resume_frame-Leaves :
      (i f : ℕ) (s : Machine H) (frame : Frame) (frames : List Frame) (value : Value)
      → s.frames ≡ frame ∷ frames
      → At i (suc f) s
      → Leaves i f (complete_resume_frame value s)
  unfolding complete_resume_frame
  complete_resume_frame-Leaves i f s frame frames value same at =
      subst (λ (t : List Frame). Leaves i f (complete_top t value s)) (sym same)
        (complete_top-Leaves i f s frame frames value same at)

-- The name of an access point lies within its array.
abbrev pub NameFits : Option WifiAccessPoint → Type 0
NameFits none = Unit
NameFits (some network) = leb network.ssid_len (length network.ssid) ≡ true

-- The host's calls return, with a value or an error, and it names access points within their arrays.
pub record Returns {H : Type 0} (host : Host H) : Type 0 where
  pub read_returns : (h : H) (offset len : ℕ) → Settles (host.read_exact_at h offset len).1
  pub defer_returns : (h : H) (offset len : ℕ) → Settles (host.should_defer_read h offset len).1
  pub call_returns : (q : Service) (h : H) → Settles (host.call q h).1
  pub scan_fits :
      (number : ℕ) (h : H) (answer : WifiScanNetwork)
      → (host.call (service_wifi_scan_network number) h).1 ≡ ok answer
      → NameFits answer.network

module _ {H : Type 0} (max : ℕ) (host : Host H) (returns : Returns host) where
  fetch_chunk-Stays :
      (offset start len : ℕ)
      → leb len max_code_chunk_bytes ≡ true
      → Stays (fetch_chunk host offset start len)
  unfolding fetch_chunk
  fetch_chunk-Stays offset start len fits =
      Stays-bind _ _
        (asks-Stays (λ h. host.should_defer_read h offset len)
          (λ h. returns.defer_returns h offset len))
        λ deferred. if-Stays deferred _ _ (ret-Stays (some (sqbc_read offset len))) (
          Stays-bind _ _
            (reads-Stays (λ _. fitting len max_code_chunk_bytes (ok tt))
              (λ _ _. rw (fits, Settles) tt))
            λ _.
              Stays-bind _ _
                (asks-Stays (λ h. host.read_exact_at h offset len)
                  (λ h. returns.read_returns h offset len))
                λ bytes. Stays-bind _ _ (load-Stays bytes start) λ _. ret-Stays none)

  pub load_chunk_resumable-Stays : (start len : ℕ) → Stays (load_chunk_resumable max host start len)
  unfolding load_chunk_resumable
  load_chunk_resumable-Stays start len =
      Stays-bind _ _
        (reads-Stays (λ s. code_end max s.index.code_len start len)
          (λ s _. code_end-Settles max s.index.code_len start len))
        λ _. guard-then-Stays (leb len max_code_chunk_bytes) chunk_too_large _ λ fits.
          Stays-bind _ _ (reads-Stays (λ s. ok (is_loaded start len s)) (λ _ _. tt)) λ loaded.
            Stays-bind _ _
              (reads-Stays (λ s. ok ((s.index.code_offset + start) % suc max)) (λ _ _. tt))
              λ offset.
                if-Stays loaded _ _ (ret-Stays none) (fetch_chunk-Stays offset start len fits)
