-- ===== src/Driver/Export/Handover.antt =====
-- kernel/trigger6_drv.c: a frame goes from the compositor to a program that reads.
use mathlib.Core.Path.{subst, ap₂}
use native.Mathlib.Nat.{mul-le-mul_right}
use jcd543_mct_t6_linux_driv.Prelude.{
  ℕ, ◌+◌, ◌*◌, ◌^◌, ◌≤◌, ◌<◌, ◌≡◌, refl, sym, ap, ◌∙◌, Bool, true, false, if◌then◌else◌, ltb, ◌==◌,
  Option, some, Option-cases, inl, inr, List, [], ◌∷◌, length, take, get_or, arith, length-take,
}
use jcd543_mct_t6_linux_driv.Prelude.Int.{ℤ, pos}
use jcd543_mct_t6_linux_driv.Driver.Damage.Rows.{get_or-take}
use jcd543_mct_t6_linux_driv.Driver.Device.{Device, Head, Params, get_head, set_head, is_user_jpeg}
use jcd543_mct_t6_linux_driv.Driver.Device.Heads.{get-set_head}
use jcd543_mct_t6_linux_driv.Driver.Usb.{Bus}
use jcd543_mct_t6_linux_driv.Driver.Jpeg.{bytes_of}
use jcd543_mct_t6_linux_driv.Driver.Modeset.{
  Plane, pack_xrgb8888_tight, export_frame, plane_atomic_update,
}
use jcd543_mct_t6_linux_driv.Driver.Modeset.Rows.{IsPacked, pack_xrgb8888_tight-IsPacked}
use jcd543_mct_t6_linux_driv.Driver.Export.{
  Waiting, Wakeup, woken, signal, ReadResult, failed, copy_frame, has_news, wait_frame, read_woken,
  jpeg_misc_read,
}
use jcd543_mct_t6_linux_driv.Prelude.Words.{u32}
use jcd543_mct_t6_linux_driv.Prelude.Errno.{enodev}

-- The buffers that an update of the plane and a read behind it work with.
pub record IsExport (t6 : Device) (idx : ℕ) (plane : Plane) (src dst old : List ℕ) : Type 0 where
  pub user : is_user_jpeg (get_head t6 idx).transport ≡ true
  pub pixels : plane.pixels ≡ some src
  pub back : (get_head t6 idx).tx.back ≡ some dst
  pub exported : (get_head t6 idx).fb_export_buf ≡ some old
  pub wide : (get_head t6 idx).sink.width * 4 < 2 ^ 32
  pub pitch : (get_head t6 idx).sink.width * 4 ≤ plane.pitch
  pub some_pixels : 0 < (get_head t6 idx).sink.width * (get_head t6 idx).sink.height * 4
  pub room :
      (get_head t6 idx).sink.width * (get_head t6 idx).sink.height * 4
      ≤ (get_head t6 idx).tx.buf_size
  pub whole : (get_head t6 idx).tx.buf_size ≤ length dst
  pub given : (get_head t6 idx).sink.height * plane.pitch ≤ length src

-- The bytes that a program gets are the rows of the plane, one behind the other.
pub record IsFrameOf (width height pitch : ℕ) (src : List ℕ) (r : ReadResult) : Type 0 where
  pub bytes : List ℕ
  pub returned : r.ret ≡ pos (width * height * 4)
  pub frame : r.frame ≡ some bytes
  pub size : length bytes ≡ width * height * 4
  pub rows :
      (j x : ℕ)
      → j < height
      → x < width * 4
      → get_or bytes (j * (width * 4) + x) 0 ≡ get_or src (j * pitch + x) 0

-- A call that returns, with a result of this kind.
abbrev pub WillReturn : (ReadResult → Type 0) → Option ReadResult → Type 0
WillReturn P o = (r : ReadResult) × (o ≡ some r) × P r

area : (w h : ℕ) → w * 4 * h ≡ w * h * 4
area w h = grind arith

set_head-unplugged : (t : Device) (idx : ℕ) (h : Head) → (set_head t idx h).unplugged ≡ t.unplugged
set_head-unplugged t idx h = ground arith

copy_frame_lem :
    (len : ℕ) (h : Head) (t : Device) (out : List ℕ) (size : ℕ)
    → h.fb_export_buf ≡ some out
    → h.fb_export_len ≡ size
    → 0 < size
    → size ≤ len
    → copy_frame true len h t ≡ record { t6 = t; ret = pos size; frame = some (take size out) }
unfolding copy_frame
copy_frame_lem len h t out size buf set low long =
    let some_bytes : (size == 0) ≡ false = ground arith in
    let room : ltb len size ≡ false = ground arith in rw (buf, set, some_bytes, room)

-- A new number of the frame ends the wait of a reader that slept.
wait_frame_lem :
    (idx seq : ℕ) (later : List Wakeup) (t6 t : Device)
    → (get_head t6 idx).fb_export_seq ≡ seq
    → t6.unplugged ≡ false
    → (get_head t idx).fb_export_seq ≡ u32 (seq + 1)
    → wait_frame idx seq (woken t ∷ later) t6 ≡ some (pos 0, t)
unfolding wait_frame has_news
wait_frame_lem idx seq [] t6 t old plugged new =
    let moved : (u32 (seq + 1) == seq) ≡ false = ground arith in
    let still : (seq == seq) ≡ true = ground arith in rw (old, plugged, new, still, moved) refl
wait_frame_lem idx seq (woken u ∷ ws) t6 t old plugged new =
    let moved : (u32 (seq + 1) == seq) ≡ false = ground arith in
    let still : (seq == seq) ≡ true = ground arith in rw (old, plugged, new, still, moved) refl
wait_frame_lem idx seq (signal e u ∷ ws) t6 t old plugged new =
    let moved : (u32 (seq + 1) == seq) ≡ false = ground arith in
    let still : (seq == seq) ≡ true = ground arith in rw (old, plugged, new, still, moved) refl

not_gone : (gone : Bool) (x y : ReadResult) → gone ≡ false → (if gone then x else y) ≡ y
not_gone gone x y h = rw h refl

-- A read whose wait ends with a frame in the buffer.
jpeg_misc_read_lem :
    (w : Waiting) (idx len : ℕ) (t6 t : Device) (old out : List ℕ) (size : ℕ)
    → wait_frame idx (get_head t6 idx).fb_export_seq w.wakeups t6 ≡ some (pos 0, t)
    → is_user_jpeg (get_head t6 idx).transport ≡ true
    → (get_head t6 idx).fb_export_buf ≡ some old
    → t.unplugged ≡ false
    → (get_head t idx).fb_export_buf ≡ some out
    → (get_head t idx).fb_export_len ≡ size
    → 0 < size
    → size ≤ len
    → w.copies ≡ true
    → jpeg_misc_read w idx 0 len t6
      ≡ some (record { t6 = t; ret = pos size; frame = some (take size out) })
unfolding jpeg_misc_read read_woken
jpeg_misc_read_lem w idx len t6 t old out size wakes user exported plugged buf set low long copies =
    let copy = copy_frame_lem len (get_head t idx) t out size buf set low long in
    let read =
      not_gone t.unplugged (failed t enodev) (copy_frame true len (get_head t idx) t) plugged in
    rw (wakes, user, exported, copies) (ap (λ (r : ReadResult). some r) (read ∙ copy))

module _ (params : Params) (bus : Bus) (idx : ℕ) (plane : Plane) where
  -- What the export leaves in the head.
  export_frame_lem :
      (t6 : Device) (src dst old out : List ℕ)
      → IsExport t6 idx plane src dst old
      → (let h = get_head t6 idx in
          pack_xrgb8888_tight h.sink.width h.sink.height
              (some src)
              plane.pitch
              (some dst)
              h.tx.buf_size
            ≡ (pos 0, some out)
          → let t = export_frame params bus plane idx t6 in
            ((get_head t idx).fb_export_buf ≡ some out)
            × ((get_head t idx).fb_export_len ≡ h.sink.width * h.sink.height * 4)
            × (t.unplugged ≡ t6.unplugged)
            × ((get_head t idx).fb_export_seq ≡ u32 (h.fb_export_seq + 1)))
  unfolding export_frame
  export_frame_lem t6 src dst old out e packed =
      let h : Head = get_head t6 idx in
      let size : ℕ = h.sink.width * h.sink.height * 4 in
      let room : ltb h.tx.buf_size size ≡ false = ground (arith, e.room) in
      rw (e.pixels, e.back, packed, room, e.exported)
        (rw get-set_head (refl, refl, set_head-unplugged t6 idx _, refl))

  -- What packing leaves, as a buffer that is there.
  packed_lem :
      (t6 : Device) (src dst old : List ℕ)
      → IsExport t6 idx plane src dst old
      → let h = get_head t6 idx in
        (out : List ℕ) × (pack_xrgb8888_tight h.sink.width h.sink.height
            (some src)
            plane.pitch
            (some dst)
            h.tx.buf_size
          ≡ (pos 0, some out))
        × IsPacked (h.sink.width * 4) plane.pitch src h.sink.height 0 dst out
  packed_lem t6 src dst old e =
      let h : Head = get_head t6 idx in
      let w : ℕ = h.sink.width in
      let fits : w * 4 * h.sink.height ≤ h.tx.buf_size =
        omega (arith, e.room, area w h.sink.height) in
      let r = pack_xrgb8888_tight w h.sink.height (some src) plane.pitch (some dst) h.tx.buf_size in
      let (done, p) =
        pack_xrgb8888_tight-IsPacked w h.sink.height plane.pitch h.tx.buf_size src dst e.wide
          e.pitch fits e.whole e.given in
      elim (Option-cases r.1) [
        | inl missing ↦
            (let empty : length dst ≡ 0 =
                sym p.same_length ∙ ap (λ (o : Option (List ℕ)). length (bytes_of o)) missing in
              absurd (omega (arith, empty, e.whole, e.room, e.some_pixels)))
        | inr (out, there) ↦ (
          out,
          ap₂ (λ (x : ℤ) (o : Option (List ℕ)). (x, o)) done there,
          subst
              (λ (o : Option (List ℕ)).
                IsPacked (w * 4) plane.pitch src h.sink.height 0 dst (bytes_of o))
              there p,
        )
      ]

  plane_atomic_update_lem :
      (now_ns : ℕ) (t6 : Device)
      → is_user_jpeg (get_head t6 idx).transport ≡ true
      → plane_atomic_update params bus now_ns plane idx t6 ≡ export_frame params bus plane idx t6
  unfolding plane_atomic_update
  plane_atomic_update_lem now_ns t6 user = rw user

  -- A reader of a head whose frames go to a program, with room for a frame, who waits and is roused after the compositor updated the plane, wakes up by the new number of the
  -- frame, returns, and gets the length of the frame and exactly the rows of the plane one behind the other. The buffers hold a frame, the plane holds
  -- its rows, no row is longer than the pitch, the device stays plugged in and the copy to the program succeeds.
  pub jpeg_misc_read-plane_atomic_update :
      (w : Waiting) (now_ns len : ℕ) (t6 : Device) (src dst old : List ℕ) (later : List Wakeup)
      → IsExport t6 idx plane src dst old
      → (get_head t6 idx).sink.width * (get_head t6 idx).sink.height * 4 ≤ len
      → w.copies ≡ true
      → t6.unplugged ≡ false
      → w.wakeups ≡ woken (plane_atomic_update params bus now_ns plane idx t6) ∷ later
      → WillReturn
          (IsFrameOf (get_head t6 idx).sink.width (get_head t6 idx).sink.height plane.pitch src)
          (jpeg_misc_read w idx 0 len t6)
  jpeg_misc_read-plane_atomic_update w now_ns len t6 src dst old later e long copies plugged wakes =
      let h : Head = get_head t6 idx in
      let (out, packed, p) = packed_lem t6 src dst old e in
      let (buf, set, still, number) = export_frame_lem t6 src dst old out e packed in
      let t : Device = export_frame params bus plane idx t6 in
      let roused : w.wakeups ≡ woken t ∷ later =
        wakes ∙ ap (λ (u : Device). woken u ∷ later) (plane_atomic_update_lem now_ns t6 e.user) in
      let update : wait_frame idx h.fb_export_seq w.wakeups t6 ≡ some (pos 0, t) =
        rw roused (wait_frame_lem idx h.fb_export_seq later t6 t refl plugged number) in
      let read =
        jpeg_misc_read_lem w idx len t6 (export_frame params bus plane idx t6) old out
          (h.sink.width * h.sink.height * 4) update e.user e.exported (still ∙ plugged) buf set
          e.some_pixels long copies in
      let size = h.sink.width * h.sink.height * 4 in
      let whole : size ≤ length out = omega (arith, p.same_length, e.whole, e.room) in
      (
        _,
        read,
        record {
          bytes = take size out;
          returned = refl;
          frame = refl;
          size = omega (arith, length-take size out, whole);
          rows = λ j x hj hx.
              (let inside : j * (h.sink.width * 4) + x < size = omega (
                arith,
                hx,
                mul-le-mul_right (h.sink.width * 4) hj,
                area h.sink.width h.sink.height,
              ) in
                let here : 0 + j ≡ j = omega arith in
                get_or-take size out (j * (h.sink.width * 4) + x) inside
                ∙ (rw here at (p.rows j x hj hx)));
        },
      )
