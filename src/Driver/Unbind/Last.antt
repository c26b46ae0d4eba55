-- ===== src/Driver/Unbind/Last.antt =====
-- kernel/trigger6_drv.c: what a disconnect sends and what it leaves behind.
use jcd543_mct_t6_linux_driv.Prelude.{
  ℕ, ◌≡◌, ◌⊎◌, inl, inr, Bool, true, false, none, List, [], ◌∷◌, ◌++◌, arith,
}
use jcd543_mct_t6_linux_driv.Policy.Quiesce.{final_off_skip}
use jcd543_mct_t6_linux_driv.Policy.Quiesce.Permit.{IsQuiesced, final_off_skip-none_iff}
use jcd543_mct_t6_linux_driv.Driver.Device.{Device, Head, Params, Transfer}
use jcd543_mct_t6_linux_driv.Driver.Usb.{Bus}
use jcd543_mct_t6_linux_driv.Driver.Fault.{cancel_head_activity}
use jcd543_mct_t6_linux_driv.Driver.Chip.{free_head_buffers}
use jcd543_mct_t6_linux_driv.Driver.Modeset.{crtc_atomic_disable, quiesce_head}
use jcd543_mct_t6_linux_driv.Driver.Unbind.{
  Interface, drain_device, final_off_disconnect, final_off_policy, final_off_state,
  final_off_transfer, shut_down, usb_disconnect,
}

-- Nothing of a head runs, is armed or is allocated.
pub record IsReleased (h : Head) : Type 0 where
  pub work : (h.tx_work_queued ≡ false) × (h.tx_defer_work ≡ none)
  pub timers : (h.keepalive_timer ≡ none) × (h.boot_keepalive_work ≡ none)
  pub frames : (h.tx.front ≡ none) × (h.tx.back ≡ none) × (h.tx.pending ≡ false)
  pub staging : (h.video_staging ≡ none) × (h.jpeg_staging ≡ none)
  pub copies : (h.last_sent_frame ≡ none) × (h.last_jpeg_data ≡ none) × (h.fb_export_buf ≡ none)
  pub dark : h.scanout_active ≡ false

-- Nothing of a head runs or is armed.
record IsCancelled (h : Head) : Type 0 where
  work : (h.tx_work_queued ≡ false) × (h.tx_defer_work ≡ none)
  timers : (h.keepalive_timer ≡ none) × (h.boot_keepalive_work ≡ none)
  dark : h.scanout_active ≡ false

-- A device that is unplugged with both heads cancelled, and this wire.
record IsDrained (wire : List Transfer) (t : Device) : Type 0 where
  same_wire : t.wire ≡ wire
  unplugged : t.unplugged ≡ true
  no_queue : t.has_wq ≡ false
  head0 : IsCancelled t.head0
  head1 : IsCancelled t.head1

drain_device-IsDrained : (t : Device) → IsDrained t.wire (drain_device t)
unfolding drain_device cancel_head_activity
drain_device-IsDrained t = ground arith

free-IsReleased :
    (wire : List Transfer) (t : Device)
    → IsDrained wire t
    → let u = free_head_buffers t in
      (u.wire ≡ wire)
      × (u.unplugged ≡ true)
      × (u.has_wq ≡ false)
      × IsReleased u.head0
      × IsReleased u.head1
unfolding free_head_buffers
free-IsReleased wire t d = ground arith

-- The look under the lock permits the request only for a state that the policy describes.
final_off_sends :
    (params : Params) (intf locked : Interface) (was : Bool) (t : Device)
    → let u = final_off_disconnect params intf locked was t in
      (u ≡ t)
      ⊎ ((u ≡ record t { wire = t.wire ++ final_off_transfer ∷ [] })
          × (final_off_skip (final_off_state params locked was t) ≡ none))
unfolding final_off_disconnect final_off_policy
final_off_sends params intf locked was t = ground arith

module _ (params : Params) (bus : Bus) where
  crtc_disable-IsDrained :
      (wire : List Transfer) (idx : ℕ) (t : Device)
      → IsDrained wire t
      → IsDrained wire (crtc_atomic_disable params bus idx t)
  unfolding crtc_atomic_disable quiesce_head
  crtc_disable-IsDrained wire idx t d = ground arith

  shut_down-IsDrained :
      (wire : List Transfer) (enabled : List ℕ) (t : Device)
      → IsDrained wire t
      → IsDrained wire (shut_down params bus enabled t)
  unfolding shut_down
  shut_down-IsDrained wire [] t d = d
  shut_down-IsDrained wire (idx ∷ rest) t d =
      shut_down-IsDrained wire rest (crtc_atomic_disable params bus idx t)
        (crtc_disable-IsDrained wire idx t d)

  final_off-IsDrained :
      (intf locked : Interface) (t : Device)
      → let d = drain_device t in
        let u = final_off_disconnect params intf locked t.head0.scanout_active d in
        IsDrained t.wire u
        ⊎ (IsDrained (t.wire ++ final_off_transfer ∷ []) u
            × IsQuiesced (final_off_state params locked t.head0.scanout_active d))
  final_off-IsDrained intf locked t =
      let was = t.head0.scanout_active in
      let d = drain_device t in
      ground (
        arith,
        final_off_sends params intf locked was d,
        drain_device-IsDrained t,
        final_off_skip-none_iff (final_off_state params locked was d),
      )

  -- A disconnect sends nothing, or exactly the one monitor-off request, and that only if the state under the lock
  -- meets every condition of the policy, with the activity that was there before. In both cases it leaves the
  -- device unplugged without its work queue, and both heads with no work, no timer and no buffer.
  pub usb_disconnect-IsReleased :
      (intf locked : Interface) (enabled : List ℕ) (t : Device)
      → let u = usb_disconnect params bus intf locked enabled t in
        ((u.wire ≡ t.wire)
          ⊎ ((u.wire ≡ t.wire ++ final_off_transfer ∷ [])
              × IsQuiesced (final_off_state params locked t.head0.scanout_active (drain_device t))))
        × (u.unplugged ≡ true)
        × (u.has_wq ≡ false)
        × IsReleased u.head0
        × IsReleased u.head1
  unfolding usb_disconnect
  usb_disconnect-IsReleased intf locked enabled t =
      let off = final_off_disconnect params intf locked t.head0.scanout_active (drain_device t) in
      let s = shut_down params bus enabled off in
      elim (final_off-IsDrained intf locked t) [
        | inl d ↦
            let (w, a, b, c, e) =
              free-IsReleased t.wire s (shut_down-IsDrained t.wire enabled off d) in
            (inl w, a, b, c, e)
        | inr (d, q) ↦
            let sent = t.wire ++ final_off_transfer ∷ [] in
            let (w, a, b, c, e) = free-IsReleased sent s (shut_down-IsDrained sent enabled off d) in
            (inr (w, q), a, b, c, e)
      ]
