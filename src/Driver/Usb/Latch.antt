-- ===== src/Driver/Usb/Latch.antt =====
-- kernel/trigger6_drv.c: what stops the traffic, and that an error stops it for good.
use jcd543_mct_t6_linux_driv.Prelude.{ℕ, ◌≡◌, ◌⊎◌, true, false, Option, List, [], ◌∷◌, ◌++◌, arith}
use jcd543_mct_t6_linux_driv.Prelude.Int.{pos, is_negative}
use jcd543_mct_t6_linux_driv.Driver.Device.{Device, Params, Setup, control_in}
use jcd543_mct_t6_linux_driv.Driver.Usb.{Bus, ctrl_out, ctrl_in, bulk_write, check_size}
use jcd543_mct_t6_linux_driv.Policy.Query.{query_in_allowed}

-- A run that must send nothing out: it only queries or only matches descriptors, or an error is latched.
abbrev pub IsStopped : Params → Device → Type 0
IsStopped params t6 =
    (params.query_only ≡ true) ⊎ ((t6.manual_only ≡ true) ⊎ (t6.io_faulted ≡ true))

module _ (params : Params) (bus : Bus) where
  -- In a run that only queries or only matches descriptors, or with an I/O error latched, a control
  -- request out and a bulk write leave the whole device state as it is, the record of transfers included, and return an error.
  pub stopped_output :
      (t6 : Device) (s : Setup) (payload : Option (List ℕ)) (src : List ℕ)
      → IsStopped params t6
      → (let (t, r) = ctrl_out params bus s payload t6 in (t ≡ t6) × (is_negative r ≡ true))
        × (let (t, r) = bulk_write params bus src t6 in (t ≡ t6) × (is_negative r ≡ true))
  unfolding ctrl_out bulk_write
  stopped_output t6 s payload src h = ground arith

  -- A control request in makes no transfer, or makes exactly the one it is asked for; it makes one only
  -- if the run is not for descriptors only and no error is latched, and in a query-only run only if the allow-list admits the request.
  pub ctrl_in_allowed :
      (t6 : Device) (s : Setup) (old : List ℕ)
      → ((ctrl_in params bus s old t6).0.wire ≡ t6.wire)
        ⊎ (((ctrl_in params bus s old t6).0.wire ≡ t6.wire ++ control_in s ∷ [])
            × (t6.manual_only ≡ false)
            × (t6.io_faulted ≡ false)
            × ((params.query_only ≡ false)
                ⊎ (query_in_allowed t6.output_mask params.query_timings params.query_timing_page1
                      s.req s.val s.idx s.size
                    ≡ true)))
  unfolding ctrl_in check_size
  ctrl_in_allowed t6 s old = ground arith

  -- A control request out leaves the device as it is and returns an error, or returns the number of its bytes
  -- with no error latched, or returns an error and latches that error.
  pub ctrl_out_latches :
      (t6 : Device) (s : Setup) (payload : Option (List ℕ))
      → let (t, r) = ctrl_out params bus s payload t6 in
        (t ≡ t6) × (is_negative r ≡ true)
        ⊎ ((r ≡ pos s.size) × (t.io_faulted ≡ false)
            ⊎ (is_negative r ≡ true) × (t.io_faulted ≡ true) × (t.io_last_error ≡ r))
  unfolding ctrl_out check_size
  ctrl_out_latches t6 s payload = ground arith
