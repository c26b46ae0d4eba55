-- ===== src/Driver/Addressing/Layout.antt =====
-- kernel/trigger6_drv.c: no two regions of the adapter's memory that the driver writes overlap.
use jcd543_mct_t6_linux_driv.Prelude.{
  ℕ, zero, suc, ◌+◌, ◌*◌, ◌≤◌, ◌<◌, ◌≡◌, true, false, Bool-cases, inl, inr, arith, if◌then◌else◌,
}
use jcd543_mct_t6_linux_driv.Driver.Device.{Stream, Transport, raw, is_raw}
use jcd543_mct_t6_linux_driv.Driver.Addressing.{
  mib, flip_header_size, init_head_addressing, slot_addr,
}

-- The bytes of a 1920 by 1080 frame of 32-bit pixels.
abbrev pub frame_size : ℕ
frame_size = 1920 * 1080 * 4

-- The room that a slot of the secondary head has to have.
abbrev pub slot_size : Transport → ℕ
slot_size t = if is_raw t then frame_size else 4 * mib

-- Two streams share the memory of `ram_mb` megabytes: the frame of the first lies below the command
-- ring of the second, that below all its slots, and the slots lie one behind the other.
pub record IsLayout (ram_mb : ℕ) (t : Transport) (p q : Stream) : Type 0 where
  pub primary : p.fb_addr + flip_header_size + frame_size ≤ q.cmd_base_addr
  pub ring : q.cmd_base_addr + 2 * mib ≤ q.cmd_limit_addr
  pub slot :
      (i : ℕ)
      → i < q.fb_slot_count
      → (q.cmd_limit_addr ≤ slot_addr q i) × (slot_addr q i + slot_size t ≤ ram_mb * mib)
  pub apart : (i j : ℕ) → i < j → j < q.fb_slot_count → slot_addr q i + slot_size t ≤ slot_addr q j

module _ (ram_mb : ℕ) (t : Transport) (s : Stream) (low : 30 ≤ ram_mb) (high : ram_mb < 4096) where
  abbrev second : Stream
  second = init_head_addressing ram_mb 1 t s

  abbrev Fits : ℕ → Type 0
  Fits i =
      i < second.fb_slot_count
      → (second.cmd_limit_addr ≤ slot_addr second i)
        × (slot_addr second i + slot_size t ≤ ram_mb * mib)

  abbrev Apart : ℕ → ℕ → Type 0
  Apart i j =
      i < j → j < second.fb_slot_count → slot_addr second i + slot_size t ≤ slot_addr second j

  raw-Fits : is_raw t ≡ true → (i : ℕ) → Fits i
  unfolding init_head_addressing slot_addr
  raw-Fits e zero h = ground arith
  raw-Fits e (suc zero) h = ground arith
  raw-Fits e (suc (suc i)) h = ground arith

  other-Fits : is_raw t ≡ false → (i : ℕ) → Fits i
  unfolding init_head_addressing slot_addr
  other-Fits e zero h = ground arith
  other-Fits e (suc zero) h = ground arith
  other-Fits e (suc (suc zero)) h = ground arith
  other-Fits e (suc (suc (suc i))) h = ground arith

  raw-Apart : is_raw t ≡ true → (i j : ℕ) → Apart i j
  unfolding init_head_addressing slot_addr
  raw-Apart e i zero p h = absurd (omega arith)
  raw-Apart e zero (suc zero) p h = ground arith
  raw-Apart e (suc i) (suc zero) p h = absurd (omega arith)
  raw-Apart e i (suc (suc j)) p h = ground arith

  other-Apart : is_raw t ≡ false → (i j : ℕ) → Apart i j
  unfolding init_head_addressing slot_addr
  other-Apart e i zero p h = absurd (omega arith)
  other-Apart e zero (suc zero) p h = ground arith
  other-Apart e (suc i) (suc zero) p h = absurd (omega arith)
  other-Apart e zero (suc (suc zero)) p h = ground arith
  other-Apart e (suc zero) (suc (suc zero)) p h = ground arith
  other-Apart e (suc (suc i)) (suc (suc zero)) p h = absurd (omega arith)
  other-Apart e i (suc (suc (suc j))) p h = ground arith

  -- With 30 megabytes of memory or more, and fewer than 4096, a raw primary head and a secondary head of any
  -- transport share the memory: the primary's frame lies below the command ring, which has two megabytes or more, the
  -- ring lies below every slot, the slots do not overlap, and all end within the memory.
  pub init_head_addressing-IsLayout :
      (r : Stream) → IsLayout ram_mb t (init_head_addressing ram_mb 0 raw r) second
  unfolding init_head_addressing
  init_head_addressing-IsLayout r = record {
    primary = ground arith;
    ring = ground arith;
    slot = λ i. elim (Bool-cases (is_raw t)) [ inl e ↦ raw-Fits e i | inr e ↦ other-Fits e i ];
    apart =
        λ i j. elim (Bool-cases (is_raw t)) [ inl e ↦ raw-Apart e i j | inr e ↦ other-Apart e i j ];
  }
