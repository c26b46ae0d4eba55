-- ===== src/Driver/Usb/Fuel.antt =====
-- kernel/trigger6_drv.c: the loop of a bulk write ends.
use jcd543_mct_t6_linux_driv.Prelude.{
  ℕ, zero, suc, ◌<◌, ◌≡◌, refl, min, List, [], ◌∷◌, length, take, drop, arith, length-drop,
}
use jcd543_mct_t6_linux_driv.Prelude.Int.{ℤ}
use jcd543_mct_t6_linux_driv.Driver.Device.{Device, Params}
use jcd543_mct_t6_linux_driv.Driver.Usb.{
  Bus, xfer_chunk_size, observe_suspend, bulk_chunk, bulk_loop,
}

module _ (params : Params) (bus : Bus) where
  -- The loop of a bulk write ends within one round more than there are bytes, whatever the USB core answers: with any two amounts
  -- of fuel that are larger than the number of bytes it gives the same device and the same value.
  pub bulk_loop_ends :
      (f g : ℕ) (cursor : List ℕ) (ret : ℤ) (t : Device)
      → length cursor < f
      → length cursor < g
      → bulk_loop params bus f cursor ret t ≡ bulk_loop params bus g cursor ret t
  unfolding bulk_loop
  bulk_loop_ends zero g cursor ret t h k = absurd (omega arith)
  bulk_loop_ends (suc f) zero cursor ret t h k = absurd (omega arith)
  bulk_loop_ends (suc f) (suc g) [] ret t h k = refl
  bulk_loop_ends (suc f) (suc g) (x ∷ xs) ret t h k =
      let n = min xfer_chunk_size (length (x ∷ xs)) in
      let rest = drop n (x ∷ xs) in
      let sent = bulk_chunk params bus (take n (x ∷ xs)) (observe_suspend params bus t) in
      let shorter : length rest < length (x ∷ xs) = omega (arith, length-drop n (x ∷ xs)) in
      rw
        (bulk_loop_ends f g rest sent.1 sent.0 (omega (arith, shorter, h))
          (omega (arith, shorter, k)))
        refl
