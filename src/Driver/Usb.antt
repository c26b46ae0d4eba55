-- ===== src/Driver/Usb.antt =====
-- kernel/trigger6_drv.c: control requests and bulk writes, and the latch that stops all traffic after an error.
-- The USB core is a parameter: what a transfer gives back depends on the transfers made before it. `wire`
-- records each transfer that is handed to it.
pub mod Latch
pub mod Chunks
pub mod Frames
pub mod Fuel
use jcd543_mct_t6_linux_driv.Prelude.{
  ℕ, zero, suc, ◌+◌, min, Bool, true, false, ◌&&◌, ◌||◌, not, ltb, ◌==◌, if◌then◌else◌, Option,
  none, some, List, [], ◌∷◌, ◌++◌, length, take, drop, replicate,
}
use jcd543_mct_t6_linux_driv.Prelude.Int.{ℤ, pos, is_zero, is_negative}
use jcd543_mct_t6_linux_driv.Prelude.Errno.{eperm, eio, enomem, einval, ehostdown}
use jcd543_mct_t6_linux_driv.Policy.Query.{query_in_allowed}
use jcd543_mct_t6_linux_driv.Driver.Device.{
  Device, DeviceMetrics, Params, Setup, Transfer, control_out, control_in, bulk_out,
  update_last_max,
}

abbrev pub xfer_chunk_size : ℕ
xfer_chunk_size = 102400

-- What lies outside the driver: `usb_control_msg` and `usb_bulk_msg`, whether an allocation and a
-- copy from a program succeed, whether the system was suspended since the last look, and how long a bulk write took.
pub record Bus : Type 0 where
  pub control_result : List Transfer → Setup → ℤ
  pub control_data : List Transfer → Setup → List ℕ
  pub bulk_result : List Transfer → List ℕ → ℤ
  pub bulk_actual : List Transfer → List ℕ → ℕ
  pub allocates : List Transfer → Bool
  pub copies : List Transfer → Bool
  pub suspended : List Transfer → Bool
  pub elapsed_ns : List Transfer → ℕ

-- Hand a transfer to the USB core.
abbrev pub submit : Transfer → Device → Device
submit t t6 = record t6 { wire = t6.wire ++ t ∷ [] }

-- `t6_latch_io_error`, which returns the error that it is given.
unfoldable pub latch_io_error : ℤ → Device → Device
latch_io_error ret t6 = record t6 { io_last_error = ret; io_faulted = true }

abbrev pub equals_size : ℤ → ℕ → Bool
equals_size (pos n) size = n == size
equals_size _ size = false

-- `if (ret != size) return t6_latch_io_error(t6, ret < 0 ? ret : -EIO); return ret;`
unfoldable pub check_size : ℤ → ℕ → Device → Device × ℤ
unfolding latch_io_error
check_size ret size t6 =
    if equals_size ret size
    then (t6, ret)
    else (let e = if is_negative ret then ret else eio in (latch_io_error e t6, e))

module _ (params : Params) (bus : Bus) where
  -- `t6_ctrl_out`; `none` is a null `data`.
  unfoldable pub ctrl_out : Setup → Option (List ℕ) → Device → Device × ℤ
  unfolding check_size
  ctrl_out s payload t6 =
      let send = λ (bytes : List ℕ).
        check_size (bus.control_result t6.wire s) s.size (submit (control_out s bytes) t6) in
      if params.query_only
      then (t6, eperm)
      else if t6.manual_only || t6.io_faulted
      then (t6, eio)
      else if s.size == 0
      then send []
      else elim payload [
        | none ↦ (t6, einval)
        | some bytes ↦ if not (bus.allocates t6.wire) then (t6, enomem) else send bytes
      ]

  -- `t6_ctrl_in` with a buffer to fill: the returned value, and the bytes of the buffer. A return
  -- before `memset` leaves the buffer, which is `old`.
  unfoldable pub ctrl_in : Setup → List ℕ → Device → Device × ℤ × List ℕ
  unfolding check_size
  ctrl_in s old t6 =
      if t6.manual_only || t6.io_faulted
      then (t6, eio, old)
      else if params.query_only
          && not (
              query_in_allowed t6.output_mask params.query_timings params.query_timing_page1 s.req
                s.val s.idx s.size)
      then (t6, eperm, old)
      else if s.size == 0
      then (t6, einval, old)
      else if not (bus.allocates t6.wire)
      then (t6, enomem, old)
      else (let ret = bus.control_result t6.wire s in
          let got =
            if equals_size ret s.size then bus.control_data t6.wire s else replicate s.size 0 in
          let (after, r) = check_size ret s.size (submit (control_in s) t6) in (after, r, got))

  -- The suspend handler may latch a fault while the loop runs.
  unfoldable pub observe_suspend : Device → Device
  observe_suspend t6 =
      if bus.suspended t6.wire
      then record t6 { io_faulted = true; io_last_error = ehostdown }
      else t6

  -- One call of `usb_bulk_msg` with a chunk, and the checks behind it. `none`: the loop goes on.
  unfoldable pub bulk_chunk : List ℕ → Device → Device × ℤ × Bool
  unfolding latch_io_error
  bulk_chunk chunk t6 =
      let ret = bus.bulk_result t6.wire chunk in
      let actual = bus.bulk_actual t6.wire chunk in
      let m = t6.metrics in
      let sent =
        submit (bulk_out chunk)
          (record t6 { metrics = record m { bulk_chunks = m.bulk_chunks + 1 } }) in
      if is_negative ret
      then (
        latch_io_error ret
            (record sent { metrics = record (sent.metrics) { bulk_errors = m.bulk_errors + 1 } }),
        ret,
        false,
      )
      else if not (actual == length chunk)
      then (
        latch_io_error eio (record sent {
          metrics = record (sent.metrics) { bulk_short_writes = m.bulk_short_writes + 1 };
        }),
        eio,
        false,
      )
      else (sent, ret, true)

  -- `while (remaining)`, on fuel; `cursor` holds the bytes that remain.
  unfoldable pub bulk_loop : ℕ → List ℕ → ℤ → Device → Device × ℤ
  unfolding observe_suspend bulk_chunk
  bulk_loop zero cursor ret t6 = (t6, ret)
  bulk_loop (suc fuel) cursor ret t6 =
      let seen = observe_suspend t6 in
      let chunk = take (min xfer_chunk_size (length cursor)) cursor in
      let (sent, r, more) = bulk_chunk chunk seen in
      let rest = bulk_loop fuel (drop (min xfer_chunk_size (length cursor)) cursor) r sent in
      if length cursor == 0
      then (t6, ret)
      else if seen.io_faulted
      then (seen, eio)
      else if more
      then rest
      else (sent, r)

  -- `t6_bulk_write`. Each round sends at least a byte, so the length is enough fuel, with one round
  -- more for the test that ends the loop.
  unfoldable pub bulk_write : List ℕ → Device → Device × ℤ
  unfolding bulk_loop
  bulk_write src t6 =
      if params.query_only
      then (t6, eperm)
      else if t6.manual_only || t6.io_faulted
      then (t6, eio)
      else if length src == 0
      then (t6, pos 0)
      else if not t6.has_bulk_chunk
      then (t6, enomem)
      else (let m = t6.metrics in
          let counted = record t6 {
            metrics = record m {
              bulk_calls = m.bulk_calls + 1;
              bulk_bytes = m.bulk_bytes + length src;
              last_bulk_bytes = length src;
            };
          } in
          let (t, ret) = bulk_loop (length src + 1) src (pos 0) counted in
          (
            record t {
              metrics = record (t.metrics) {
                bulk_time = update_last_max (bus.elapsed_ns t.wire) t.metrics.bulk_time;
              };
            },
            ret,
          ))
