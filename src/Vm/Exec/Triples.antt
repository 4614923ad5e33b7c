-- ===== src/Vm/Exec/Triples.antt =====
-- compiler/rust/crates/squidvm-core/src/vm.rs: what a method of the VM keeps, and how methods in a row
-- keep it.
use squid_script.Base.{
  ℕ, suc, ◌≤◌, ◌≡◌, refl, Bool, true, false, All, length, if◌then◌else◌, Result, ok, err, panic,
  stuck, Settles, arith,
}
use squid_script.Vm.Limits.{max_locals, max_stack, max_call_depth}
use squid_script.Vm.Values.{VmError}
use squid_script.Vm.Strings.Acyclic.{IsAcyclic}
use squid_script.Vm.Machine.{Frame, Machine}
use squid_script.Vm.Exec.{M, follow, ◌>>=◌, ◌>>◌, ret, fail, reads, guard}

-- The machine is within its arrays, and its strings refer to earlier ones.
pub record IsValid {H : Type 0} (s : Machine H) : Type 0 where
  pub stack_fits : length s.stack ≤ max_stack
  pub frames_fit : length s.frames ≤ suc max_call_depth
  pub locals_full : All (λ (f : Frame). length f.locals ≡ max_locals) s.frames
  pub strings_acyclic : IsAcyclic s.strings.refs

-- A valid machine that has counted `i` instructions and has at most `f` frames.
pub record At {H : Type 0} (i f : ℕ) (s : Machine H) : Type 0 where
  pub valid : IsValid s
  pub counted : s.instructions ≡ i
  pub frames_below : length s.frames ≤ f

-- A result, and a valid machine.
abbrev pub Leaves : {H A : Type 0} → ℕ → ℕ → Machine H × Result VmError A → Type 0
Leaves i f (s, outcome) = At i f s × Settles outcome

-- No frame is added.
pub record Stays {H A : Type 0} (m : M H A) : Type 0 where
  pub stays : (i f : ℕ) (s : Machine H) → At i f s → Leaves i f (m s)

-- At most one frame is added.
pub record Grows {H A : Type 0} (m : M H A) : Type 0 where
  pub grows : (i f : ℕ) (s : Machine H) → At i f s → Leaves i (suc f) (m s)

module _ {H : Type 0} where
  pub At-suc : (i f : ℕ) (s : Machine H) → At i f s → At i (suc f) s
  At-suc i f s h = record {
    valid = h.valid;
    counted = h.counted;
    frames_below = omega (arith, h.frames_below);
  }

  pub Stays-Grows : {A : Type 0} (m : M H A) → Stays m → Grows m
  Stays-Grows m h = record {
    grows = λ i f s at. let (at', fine) = h.stays i f s at in (At-suc i f (m s).0 at', fine);
  }

  pub follow-Leaves :
      {A B : Type 0} (i f g : ℕ) (r : Machine H × Result VmError A) (k : A → M H B)
      → Leaves i f r
      → ((s : Machine H) → At i f s → At i g s)
      → ((a : A) (s : Machine H) → At i f s → Leaves i g (k a s))
      → Leaves i g (follow r k)
  follow-Leaves i f g (s, ok a) k (at, fine) weaken h = h a s at
  follow-Leaves i f g (s, err e) k (at, fine) weaken h = (weaken s at, tt)
  follow-Leaves i f g (s, panic) k (at, fine) weaken h = absurd fine
  follow-Leaves i f g (s, stuck) k (at, fine) weaken h = absurd fine

  pub Stays-bind :
      {A B : Type 0} (m : M H A) (k : A → M H B)
      → Stays m
      → ((a : A) → Stays (k a))
      → Stays (m >>= k)
  Stays-bind m k hm hk = record {
    stays = λ i f s at.
        follow-Leaves i f f (m s) k (hm.stays i f s at) (λ _ h. h)
          (λ a s' at'. (hk a).stays i f s' at');
  }

  -- The frame may be added by the first part, or by the second.
  pub Grows-Stays :
      {A B : Type 0} (m : M H A) (k : A → M H B)
      → Grows m
      → ((a : A) → Stays (k a))
      → Grows (m >>= k)
  Grows-Stays m k hm hk = record {
    grows = λ i f s at.
        follow-Leaves i (suc f) (suc f) (m s) k (hm.grows i f s at) (λ _ h. h)
          (λ a s' at'. (hk a).stays i (suc f) s' at');
  }

  pub Stays-then-Grows :
      {A B : Type 0} (m : M H A) (k : A → M H B)
      → Stays m
      → ((a : A) → Grows (k a))
      → Grows (m >>= k)
  Stays-then-Grows m k hm hk = record {
    grows = λ i f s at.
        follow-Leaves i f (suc f) (m s) k (hm.stays i f s at) (λ s' at'. At-suc i f s' at')
          (λ a s' at'. (hk a).grows i f s' at');
  }

  pub ret-Stays : {A : Type 0} (a : A) → Stays {H = H} (ret a)
  ret-Stays a = record { stays = λ i f s at. (at, tt) }

  pub fail-Stays : (A : Type 0) (e : VmError) → Stays {H = H} {A = A} (fail e)
  fail-Stays A e = record { stays = λ i f s at. (at, tt) }

  pub reads-Stays :
      {A : Type 0} (r : Machine H → Result VmError A)
      → ((s : Machine H) → IsValid s → Settles (r s))
      → Stays (reads r)
  reads-Stays r h = record { stays = λ i f s at. (at, h s at.valid) }

  pub guard-Stays : (b : Bool) (e : VmError) → Stays {H = H} (guard b e)
  guard-Stays true e = record { stays = λ i f s at. (at, tt) }
  guard-Stays false e = record { stays = λ i f s at. (at, tt) }

  -- What follows a guard may rely on it.
  pub guard-then-Stays :
      {B : Type 0} (b : Bool) (e : VmError) (k : M H B)
      → (b ≡ true → Stays k)
      → Stays (guard b e >> k)
  guard-then-Stays true e k hk = record { stays = λ i f s at. (hk refl).stays i f s at }
  guard-then-Stays false e k hk = record { stays = λ i f s at. (at, tt) }

  pub if-Stays :
      {A : Type 0} (b : Bool) (m n : M H A) → Stays m → Stays n → Stays (if b then m else n)
  if-Stays true m n hm hn = hm
  if-Stays false m n hm hn = hn

  pub if-Grows :
      {A : Type 0} (b : Bool) (m n : M H A) → Grows m → Grows n → Grows (if b then m else n)
  if-Grows true m n hm hn = hm
  if-Grows false m n hm hn = hn

  pub follow-reads :
      {A B : Type 0} (P : A → Type 0) (i f g : ℕ) (s : Machine H) (r : Result VmError A)
      (k : A → M H B)
      → At i g s
      → Settles r
      → ((a : A) → r ≡ ok a → P a)
      → ((a : A) → P a → Leaves i g (k a s))
      → Leaves i g (follow (s, r) k)
  follow-reads P i f g s (ok a) k at fine p h = h a (p a refl)
  follow-reads P i f g s (err e) k at fine p h = (at, tt)
  follow-reads P i f g s panic k at fine p h = absurd fine
  follow-reads P i f g s stuck k at fine p h = absurd fine

  -- What was read has a property that the rest relies on.
  pub reads-Grows :
      {A B : Type 0} (P : A → Type 0) (r : Machine H → Result VmError A) (k : A → M H B)
      → ((s : Machine H) → IsValid s → Settles (r s))
      → ((s : Machine H) → IsValid s → (a : A) → r s ≡ ok a → P a)
      → ((a : A) → P a → Grows (k a))
      → Grows (reads r >>= k)
  reads-Grows P r k fine p h = record {
    grows = λ i f s at.
        follow-reads P i f (suc f) s (r s) k (At-suc i f s at) (fine s at.valid) (p s at.valid)
          (λ a held. (h a held).grows i f s at);
  }
