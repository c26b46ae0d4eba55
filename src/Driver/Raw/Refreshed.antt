-- ===== src/Driver/Raw/Refreshed.antt =====
-- kernel/trigger6_drv.c: the copy of the changed rows makes the reference frame the new one.
use mathlib.Core.List.{append-nil}
use native.Mathlib.Nat.{mul_comm}
use jcd543_mct_t6_linux_driv.Prelude.{
  ℕ, ◌+◌, ◌*◌, ◌^◌, ◌<◌, ◌≡◌, inl, inr, refl, sym, ◌∙◌, Bool, true, false, not, ◌==◌, ◌&&◌,
  if◌then◌else◌, some, List, [], ◌∷◌, length, drop, arith, Bool-cases,
}
use jcd543_mct_t6_linux_driv.Driver.Device.{Head}
use jcd543_mct_t6_linux_driv.Driver.Damage.{
  DirtyRange, FrameDamage, compute_frame_damage, copy_range, copy_ranges,
}
use jcd543_mct_t6_linux_driv.Driver.Damage.Rows.{take_exact, copy_range_parts}
use jcd543_mct_t6_linux_driv.Driver.Damage.Exact.{compute_frame_damage-Tracks}
use jcd543_mct_t6_linux_driv.Driver.Raw.{raw_stride, raw_frame_size, is_partial}

drop_all : (xs : List ℕ) → drop (length xs) xs ≡ []
drop_all [] = refl
drop_all (x ∷ xs) = drop_all xs

copy_range_all :
    (n : ℕ) (src dst : List ℕ) → length src ≡ n → length dst ≡ n → copy_range 0 n src dst ≡ src
copy_range_all n src dst e f =
    let z : 0 + n ≡ length dst = omega arith in
    copy_range_parts 0 n src dst (e ∙ sym f) (omega arith)
    ∙ rw (z, drop_all dst, take_exact n src e) (append-nil src)

-- A head whose reference is not valid has its whole frame sent.
compute_frame_damage_stale :
    (w h : ℕ) (p r : List ℕ) → (compute_frame_damage w h p (some r) false).full_frame ≡ true
unfolding compute_frame_damage
compute_frame_damage_stale w h p r = refl

-- The copy that brings the reference frame up to date with a damage.
abbrev pub refreshed : ℕ → ℕ → FrameDamage → List ℕ → List ℕ → List ℕ
refreshed stride size d src ref =
    if is_partial (some d) then copy_ranges stride d.ranges src ref else copy_range 0 size src ref

-- A frame of a head's size, with a width that is not zero and sizes of 32 bits.
pub record IsFrame (h : Head) (pixels : List ℕ) : Type 0 where
  pub wide : 0 < h.sink.width
  pub row : h.sink.width * 4 < 2 ^ 32
  pub area : h.sink.height * (h.sink.width * 4) < 2 ^ 32
  pub size : length pixels ≡ h.sink.height * (h.sink.width * 4)

-- The damage of a frame against the reference frame of its head.
abbrev pub damage_of : Head → List ℕ → List ℕ → FrameDamage
damage_of h pixels ref =
    compute_frame_damage h.sink.width h.sink.height pixels (some ref) h.last_sent_valid

-- With the damage against a frame, the copy makes that frame the new one; where only rows are copied, the old
-- one was valid.
pub refreshed_lem :
    (h : Head) (pixels ref : List ℕ)
    → IsFrame h pixels
    → length ref ≡ length pixels
    → let d = damage_of h pixels ref in
      (refreshed (raw_stride h) (raw_frame_size h) d pixels ref ≡ pixels)
      × (d.full_frame ≡ false → h.last_sent_valid ≡ true)
refreshed_lem h pixels ref f same =
    let d = damage_of h pixels ref in
    let rsize : length ref ≡ h.sink.height * (h.sink.width * 4) = same ∙ f.size in
    let stride : raw_stride h ≡ h.sink.width * 4 = omega (arith, f.row) in
    let area : raw_frame_size h ≡ h.sink.height * (h.sink.width * 4) =
      rw (stride, mul_comm (h.sink.width * 4) h.sink.height) (omega (arith, f.area)) in
    elim (Bool-cases d.full_frame) [
      | inl full ↦ (
        rw (full, area)
            (copy_range_all (h.sink.height * (h.sink.width * 4)) pixels ref f.size rsize),
        λ part. absurd (cc (full, part)),
      )
      | inr part ↦ elim (Bool-cases h.last_sent_valid) [
        | inl valid ↦ (
          rw (part, stride, valid)
              (compute_frame_damage-Tracks h.sink.width h.sink.height pixels ref f.wide f.row f.area
                f.size rsize (rw valid at part)).1,
          λ p. valid,
        )
        | inr stale ↦ absurd (
            ground (
              arith,
              rw stale at part,
              compute_frame_damage_stale h.sink.width h.sink.height pixels ref,
            ))
      ]
    ]

-- A partial damage without ranges copies nothing.
pub unchanged :
    (stride size : ℕ) (rs : List DirtyRange) (full : Bool) (pixels ref : List ℕ)
    → (not full && length rs == 0) ≡ true
    → refreshed stride size (record { ranges = rs; full_frame = full }) pixels ref ≡ pixels
    → ref ≡ pixels
unchanged stride size [] false pixels ref z done = done
unchanged stride size [] true pixels ref z done = absurd (cc z)
unchanged stride size (r ∷ rs) false pixels ref z done = absurd (ground (arith, z))
unchanged stride size (r ∷ rs) true pixels ref z done = absurd (cc z)
