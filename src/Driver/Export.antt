-- ===== src/Driver/Export.antt =====
-- kernel/trigger6_drv.c: `t6_jpeg_misc_read` and `t6_jpeg_misc_poll`, by which a program gets the compositor's frames.
pub mod Handover
pub mod Stale
use jcd543_mct_t6_linux_driv.Prelude.{
  ℕ, ◌^◌, ◌&&◌, Bool, not, ltb, ◌||◌, ◌==◌, if◌then◌else◌, Option, none, some, List, [], ◌∷◌, ◌++◌,
  take,
}
use jcd543_mct_t6_linux_driv.Prelude.Int.{ℤ, pos, is_zero}
use jcd543_mct_t6_linux_driv.Prelude.Errno.{eagain, efault, einval, enodev, eopnotsupp, espipe}
use jcd543_mct_t6_linux_driv.Driver.Device.{Device, Head, get_head, is_user_jpeg}
use jcd543_mct_t6_linux_driv.Driver.Queue.{is_null}

-- What rouses a reader that sleeps, and the device as it is then: the driver's other entries run meanwhile. A signal has
-- the error that it ends the wait with.
pub data Wakeup : Type 0 where
  woken : Device → Wakeup
  signal : ℤ → Device → Wakeup

-- The sleep and the copy to the program are the kernel's: what rouses the reader, in order, and whether the copy succeeds.
pub record Waiting : Type 0 where
  pub wakeups : List Wakeup
  pub copies : Bool

-- What a read leaves: the device, the returned value, and the bytes that the program's buffer gets, if it gets them all.
pub record ReadResult : Type 0 where
  pub t6 : Device
  pub ret : ℤ
  pub frame : Option (List ℕ)

abbrev pub failed : Device → ℤ → ReadResult
failed t6 ret = record { t6 = t6; ret = ret; frame = none }

-- Behind the wait: the frame under the lock, and its copy.
unfoldable pub copy_frame : Bool → ℕ → Head → Device → ReadResult
copy_frame copies len h t6 = elim h.fb_export_buf [
  | none ↦ failed t6 eagain
  | some src ↦
      (if h.fb_export_len == 0
        then failed t6 eagain
        else if ltb len h.fb_export_len
        then failed t6 einval
        else if not copies
        then failed t6 efault
        else record { t6 = t6; ret = pos h.fb_export_len; frame = some (take h.fb_export_len src) })
]

-- The condition of the wait: there is another frame than the last one, or the device is gone.
unfoldable pub has_news : ℕ → ℕ → Device → Bool
has_news idx last_seq t = not ((get_head t idx).fb_export_seq == last_seq) || t.unplugged

-- `wait_event_interruptible`: it looks at the condition, and sleeps as long as it does not hold. `none` is a reader
-- that still sleeps after all that roused it.
unfoldable pub wait_frame : ℕ → ℕ → List Wakeup → Device → Option (ℤ × Device)
unfolding has_news
wait_frame idx last_seq [] t = if has_news idx last_seq t then some (pos 0, t) else none
wait_frame idx last_seq (woken u ∷ ws) t =
    let rest = wait_frame idx last_seq ws u in
    if has_news idx last_seq t then some (pos 0, t) else rest
wait_frame idx last_seq (signal e u ∷ ws) t =
    if has_news idx last_seq t
    then some (pos 0, t)
    else if has_news idx last_seq u
    then some (pos 0, u)
    else some (e, u)

-- Behind the wait.
unfoldable pub read_woken : Bool → ℕ → ℕ → ℤ × Device → ReadResult
unfolding copy_frame
read_woken copies idx len (waited, t) =
    if not (is_zero waited)
    then failed t waited
    else if t.unplugged
    then failed t enodev
    else copy_frame copies len (get_head t idx) t

-- `t6_jpeg_misc_read` of `len` bytes at the file's position `at`; `none` if it still waits.
unfoldable pub jpeg_misc_read : Waiting → ℕ → ℕ → ℕ → Device → Option ReadResult
unfolding wait_frame read_woken
jpeg_misc_read w idx at len t6 =
    let h = get_head t6 idx in
    if not (at == 0)
    then some (failed t6 espipe)
    else if not (is_user_jpeg h.transport)
    then some (failed t6 eopnotsupp)
    else if is_null h.fb_export_buf
    then some (failed t6 enodev)
    else elim (wait_frame idx h.fb_export_seq w.wakeups t6) [
      | none ↦ none
      | some r ↦ some (read_woken w.copies idx len r)
    ]

-- The bits of a poll's answer.
pub data PollBit : Type 0 where
  epollout epollwrnorm epollin epollrdnorm epollhup : PollBit

-- `t6_jpeg_misc_poll`: always writable, and readable while the signed counter of the frames is above zero.
unfoldable pub jpeg_misc_poll : ℕ → Device → List PollBit
jpeg_misc_poll idx t6 =
    let h = get_head t6 idx in
    PollBit.epollout
    ∷ PollBit.epollwrnorm
    ∷ ((if ltb 0 h.fb_export_seq && ltb h.fb_export_seq (2 ^ 31)
          then PollBit.epollin ∷ PollBit.epollrdnorm ∷ []
          else [])
        ++ (if t6.unplugged then PollBit.epollhup ∷ [] else []))
