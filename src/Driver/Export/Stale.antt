-- ===== src/Driver/Export/Stale.antt =====
-- kernel/trigger6_drv.c: a program that reads does not get the frame that was there before.
use jcd543_mct_t6_linux_driv.Prelude.{
  ℕ, ◌≡◌, ◌⊎◌, inl, inr, refl, true, false, not, Bool, if◌then◌else◌, ◌==◌, Option, none, some,
  List, [], ◌∷◌, arith,
}
use jcd543_mct_t6_linux_driv.Prelude.Int.{ℤ, is_negative, is_zero}
use jcd543_mct_t6_linux_driv.Driver.Device.{Device, get_head, is_user_jpeg}
use jcd543_mct_t6_linux_driv.Driver.Queue.{is_null}
use jcd543_mct_t6_linux_driv.Prelude.Errno.{enodev, eopnotsupp, espipe}
use jcd543_mct_t6_linux_driv.Driver.Export.{
  Wakeup, woken, signal, Waiting, ReadResult, failed, has_news, wait_frame, read_woken,
  jpeg_misc_read,
}

-- A device that is plugged in and has the frame of this number.
pub record IsStale (idx seq : ℕ) (t : Device) : Type 0 where
  pub same_seq : (get_head t idx).fb_export_seq ≡ seq
  pub plugged : t.unplugged ≡ false

-- Whatever rouses the reader, it finds such a device; a signal has an error.
abbrev pub AllStale : ℕ → ℕ → List Wakeup → Type 0
AllStale idx seq [] = Unit
AllStale idx seq (woken u ∷ ws) = IsStale idx seq u × AllStale idx seq ws
AllStale idx seq (signal e u ∷ ws) =
    (is_negative e ≡ true) × IsStale idx seq u × AllStale idx seq ws

has_news_stale : (idx seq : ℕ) (t : Device) → IsStale idx seq t → has_news idx seq t ≡ false
unfolding has_news
has_news_stale idx seq t s = ground (arith, s.same_seq, s.plugged)

-- A wait that goes on, or ends with the error of a signal.
abbrev Sleeps : Option (ℤ × Device) → Type 0
Sleeps o = (o ≡ none) ⊎ ((e : ℤ) × (u : Device) × (o ≡ some (e, u)) × (is_negative e ≡ true))

wait_frame-Sleeps :
    (idx seq : ℕ) (ws : List Wakeup) (t : Device)
    → IsStale idx seq t
    → AllStale idx seq ws
    → Sleeps (wait_frame idx seq ws t)
unfolding wait_frame
wait_frame-Sleeps idx seq [] t s h = rw (has_news_stale idx seq t s) (inl refl)
wait_frame-Sleeps idx seq (woken u ∷ ws) t s h =
    rw (has_news_stale idx seq t s) (wait_frame-Sleeps idx seq ws u h.0 h.1)
wait_frame-Sleeps idx seq (signal e u ∷ ws) t s (negative, stale, h) =
    rw (has_news_stale idx seq t s, has_news_stale idx seq u stale) (inr (e, u, refl, negative))

-- A call that has not returned, or returned an error and no frame.
abbrev pub GetsNothing : Option ReadResult → Type 0
GetsNothing o =
    (o ≡ none) ⊎ ((r : ReadResult) × (o ≡ some r) × (r.frame ≡ none) × (is_negative r.ret ≡ true))

read_woken_negative :
    (copies : Bool) (idx len : ℕ) (e : ℤ) (u : Device)
    → is_negative e ≡ true
    → let r = read_woken copies idx len (e, u) in (r.frame ≡ none) × (is_negative r.ret ≡ true)
unfolding read_woken
read_woken_negative copies idx len e u negative =
    let nonzero : is_zero e ≡ false = ground arith in rw nonzero (refl, negative)

record Nothing (o : Option ReadResult) : Type 0 where
  nothing : GetsNothing o

if-Nothing :
    (b : Bool) (p q : Option ReadResult) → Nothing p → Nothing q → Nothing (if b then p else q)
if-Nothing true p q u v = u
if-Nothing false p q u v = v

failed-Nothing : (t : Device) (e : ℤ) → is_negative e ≡ true → Nothing (some (failed t e))
failed-Nothing t e h = record { nothing = inr (failed t e, refl, refl, h) }

-- What the read makes of the end of its wait.
abbrev after_wait : Bool → ℕ → ℕ → Option (ℤ × Device) → Option ReadResult
after_wait copies idx len o = elim o [ none ↦ none | some r ↦ some (read_woken copies idx len r) ]

after_wait-Nothing :
    (copies : Bool) (idx len : ℕ) (o : Option (ℤ × Device))
    → Sleeps o
    → Nothing (after_wait copies idx len o)
after_wait-Nothing copies idx len o (inl e) = record { nothing = rw e (inl refl) }
after_wait-Nothing copies idx len o (inr (e, u, same, negative)) =
    let (frame, error) = read_woken_negative copies idx len e u negative in
    record { nothing = rw same (inr (read_woken copies idx len (e, u), refl, frame, error)) }

-- As long as whatever rouses a reader finds the frame that was there when the read began and the device plugged in, the read
-- goes on, or it returns an error and no frame, in any state of the head. A signal ends a wait with an error.
pub jpeg_misc_read-GetsNothing :
    (w : Waiting) (idx at len : ℕ) (t6 : Device)
    → t6.unplugged ≡ false
    → AllStale idx (get_head t6 idx).fb_export_seq w.wakeups
    → GetsNothing (jpeg_misc_read w idx at len t6)
unfolding jpeg_misc_read
jpeg_misc_read-GetsNothing w idx at len t6 plugged stale =
    let h = get_head t6 idx in
    let waited = wait_frame idx h.fb_export_seq w.wakeups t6 in
    let after = after_wait-Nothing w.copies idx len waited (
      wait_frame-Sleeps idx h.fb_export_seq w.wakeups t6
        (record { same_seq = refl; plugged = plugged }) stale) in
    (if-Nothing (not (at == 0)) _ _ (failed-Nothing t6 espipe refl) (
      if-Nothing (not (is_user_jpeg h.transport)) _ _ (failed-Nothing t6 eopnotsupp refl)
        (if-Nothing (is_null h.fb_export_buf) _ _ (failed-Nothing t6 enodev refl) after))).nothing
