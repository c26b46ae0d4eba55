-- ===== src/Driver/Addressing.antt =====
-- kernel/trigger6_drv.c: the layout of the adapter's memory, and where the next frame goes.
pub mod Layout
pub mod Ring
use jcd543_mct_t6_linux_driv.Prelude.{
  ℕ, ◌+◌, ◌*◌, ◌%◌, Bool, true, false, ◌&&◌, ltb, leb, ◌==◌, if◌then◌else◌, List, [], ◌∷◌, get_or,
}
use jcd543_mct_t6_linux_driv.Prelude.Words.{u32, sub_u32}
use jcd543_mct_t6_linux_driv.Driver.Device.{Stream, Transport, is_raw}

abbrev pub mib : ℕ
mib = 1024 * 1024

abbrev pub jpeg_padding_size : ℕ
jpeg_padding_size = 1024

-- `sizeof(struct t6_flip_header)`
abbrev pub flip_header_size : ℕ
flip_header_size = 48

-- `t6_reset_head_stream_state`, but for the fields of the queue that it clears too.
unfoldable pub reset_stream : Stream → Stream
reset_stream s = record s {
  fb_slot_index = if ltb 1 s.fb_slot_count then 1 else 0;
  cmd_cursor_addr = s.cmd_base_addr;
  frame_seq = 0;
}

-- `t6_init_head_addressing` before its call of `t6_reset_head_stream_state`.
pub assign_addresses : ℕ → ℕ → Transport → Stream → Stream
assign_addresses ram_mb output_idx transport s =
    let tmp = sub_u32 ram_mb 18 in
    if output_idx == 0
    then (let fb = u32 (sub_u32 tmp 12 * mib) in
        record s {
          fb_addr = fb;
          cmd_addr = 0;
          fb_slots = fb ∷ 0 ∷ 0 ∷ [];
          fb_slot_count = 1;
          cmd_base_addr = 0;
          cmd_limit_addr = 0;
        })
    else if is_raw transport
    then (let cmd = u32 (tmp * mib) in
        let slot = u32 (u32 (tmp + 2) * mib) in
        record s {
          fb_addr = slot;
          cmd_addr = cmd;
          fb_slots = slot ∷ u32 (u32 (tmp + 10) * mib) ∷ 0 ∷ [];
          fb_slot_count = 2;
          cmd_base_addr = cmd;
          cmd_limit_addr = slot;
        })
    else (let cmd = u32 (tmp * mib) in
        let slot = u32 (sub_u32 ram_mb 12 * mib) in
        record s {
          fb_addr = slot;
          cmd_addr = cmd;
          fb_slots = slot ∷ u32 (sub_u32 ram_mb 8 * mib) ∷ u32 (sub_u32 ram_mb 4 * mib) ∷ [];
          fb_slot_count = 3;
          cmd_base_addr = cmd;
          cmd_limit_addr = slot;
        })

unfoldable pub init_head_addressing : ℕ → ℕ → Transport → Stream → Stream
unfolding assign_addresses reset_stream
init_head_addressing ram_mb output_idx transport s =
    reset_stream (assign_addresses ram_mb output_idx transport s)

-- The slot after the current one, as all three senders compute it.
unfoldable pub next_slot : Stream → ℕ
next_slot s = if ltb 1 s.fb_slot_count then (s.fb_slot_index + 1) % s.fb_slot_count else 0

-- `fb_slots[i] ? fb_slots[i] : fb_addr`
unfoldable pub slot_addr : Stream → ℕ → ℕ
slot_addr s i = let a = get_or s.fb_slots i 0 in if a == 0 then s.fb_addr else a

-- Whether the cursor wraps before a command of `cmd_step` bytes, and the address of that command.
unfoldable pub cmd_wraps : Stream → ℕ → Bool
cmd_wraps s cmd_step =
    ltb s.cmd_base_addr s.cmd_limit_addr
    && ltb s.cmd_limit_addr (u32 (s.cmd_cursor_addr + cmd_step))

unfoldable pub cmd_place : Stream → ℕ → ℕ
unfolding cmd_wraps
cmd_place s cmd_step = if cmd_wraps s cmd_step then s.cmd_base_addr else s.cmd_cursor_addr
