-- ===== src/Driver/Addressing/Ring.antt =====
-- kernel/trigger6_drv.c: the command ring and the rotation of the slots.
use native.Mathlib.Nat.{mod-eq_of_lt, mod_self}
use jcd543_mct_t6_linux_driv.Prelude.{
  ℕ, ◌+◌, ◌*◌, ◌^◌, ◌≤◌, ◌<◌, ◌≡◌, ◌≢◌, ◌%◌, dec_lt, arith, if◌then◌else◌,
}
use jcd543_mct_t6_linux_driv.Driver.Device.{Stream, Transport, is_raw}
use jcd543_mct_t6_linux_driv.Driver.Addressing.{mib, next_slot, cmd_place, init_head_addressing}

-- Every command of at most `most` bytes fits the ring, and the cursor is inside it.
pub record IsRing (most : ℕ) (s : Stream) : Type 0 where
  pub fits : s.cmd_base_addr + most ≤ s.cmd_limit_addr
  pub no_wrap : s.cmd_limit_addr + most < 2 ^ 32
  pub cursor_above : s.cmd_base_addr ≤ s.cmd_cursor_addr
  pub cursor_below : s.cmd_cursor_addr ≤ s.cmd_limit_addr

-- The largest step of the sender that a secondary transport uses.
abbrev pub largest_step : Transport → ℕ
largest_step t = if is_raw t then mib else 3 * mib

-- With 30 megabytes of memory or more, and fewer than 4096, the secondary head starts with a command ring that
-- holds the largest step of its transport, with the cursor inside.
pub init_head_addressing-IsRing :
    (ram_mb : ℕ) (t : Transport) (s : Stream)
    → 30 ≤ ram_mb
    → ram_mb < 4096
    → IsRing (largest_step t) (init_head_addressing ram_mb 1 t s)
unfolding init_head_addressing
init_head_addressing-IsRing ram_mb t s low high = ground arith

-- In a ring that holds every command of at most `most` bytes, a command of a positive step of at most `most` bytes is
-- placed inside the ring, and with the cursor behind it the ring is one that holds them again.
pub cmd_place-IsRing :
    (most step : ℕ) (s : Stream)
    → step ≤ most
    → 0 < step
    → IsRing most s
    → (s.cmd_base_addr ≤ cmd_place s step)
      × (cmd_place s step + step ≤ s.cmd_limit_addr)
      × IsRing most (record s { cmd_cursor_addr = cmd_place s step + step })
unfolding cmd_place
cmd_place-IsRing most step s h k r = ground arith

-- With more than one slot and a valid slot index, the next slot is one of the head's, and not the current one.
pub next_slot_lem :
    (s : Stream)
    → 1 < s.fb_slot_count
    → s.fb_slot_index < s.fb_slot_count
    → (next_slot s < s.fb_slot_count) × (next_slot s ≢ s.fb_slot_index)
unfolding next_slot
next_slot_lem s h k = elim (dec_lt (s.fb_slot_index + 1) s.fb_slot_count) [
  | yes p ↦ ground (arith, mod-eq_of_lt p)
  | no p ↦
      (let e : s.fb_slot_index + 1 ≡ s.fb_slot_count = omega arith in
        let z : (s.fb_slot_index + 1) % s.fb_slot_count ≡ 0 = rw e (mod_self s.fb_slot_count) in
        ground arith)
]
