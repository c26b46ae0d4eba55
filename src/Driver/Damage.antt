-- ===== src/Driver/Damage.antt =====
-- kernel/trigger6_drv.c: the rows of a frame that changed since the last one was sent.
-- A frame is the array of its bytes. `memcpy` from one frame to the same place in another is `copy_range`.
pub mod Rows
pub mod Exact
use jcd543_mct_t6_linux_driv.Prelude.{
  ℕ, zero, suc, ◌+◌, ◌*◌, Bool, true, false, ◌&&◌, not, leb, ◌==◌, if◌then◌else◌, Option, none,
  some, List, [], ◌∷◌, ◌++◌, length, take, drop,
}
use jcd543_mct_t6_linux_driv.Prelude.Words.{u32}

abbrev pub max_dirty_ranges : ℕ
max_dirty_ranges = 32

-- `struct t6_dirty_range`
pub record DirtyRange : Type 0 where
  pub y_start : ℕ
  pub y_count : ℕ

-- `struct t6_frame_damage`: the ranges up to `num_ranges`.
pub record FrameDamage : Type 0 where
  pub ranges : List DirtyRange
  pub full_frame : Bool

abbrev pub whole_frame : FrameDamage
whole_frame = record { ranges = []; full_frame = true }

-- `memcmp(a, b, n) == 0` for arrays of the same length.
abbrev pub same_bytes : List ℕ → List ℕ → Bool
same_bytes [] [] = true
same_bytes (x ∷ xs) (y ∷ ys) = x == y && same_bytes xs ys
same_bytes _ _ = false

-- The bytes of a row.
abbrev pub row_of : ℕ → ℕ → List ℕ → List ℕ
row_of stride row frame = take stride (drop (row * stride) frame)

-- The loop, with `n` rows left from `row` on. `closed` are the ranges up to `num_ranges`, and `current` is
-- the one behind them while `in_dirty` is set.
unfoldable pub scan_rows :
    ℕ → List ℕ → List ℕ → ℕ → ℕ → List DirtyRange → Option DirtyRange → FrameDamage
scan_rows stride cur ref zero row closed none = record { ranges = closed; full_frame = false }
scan_rows stride cur ref zero row closed (some r) = record {
  ranges = closed ++ r ∷ [];
  full_frame = false;
}
scan_rows stride cur ref (suc n) row closed none =
    let dirty = not (same_bytes (row_of stride row cur) (row_of stride row ref)) in
    let opened =
      scan_rows stride cur ref n (row + 1) closed (some (record { y_start = row; y_count = 1 })) in
    let clean = scan_rows stride cur ref n (row + 1) closed none in
    if dirty
    then (if leb max_dirty_ranges (length closed)
        then record { ranges = closed; full_frame = true }
        else opened)
    else clean
scan_rows stride cur ref (suc n) row closed (some r) =
    let dirty = not (same_bytes (row_of stride row cur) (row_of stride row ref)) in
    let longer =
      scan_rows stride cur ref n (row + 1) closed (some (record r { y_count = r.y_count + 1 })) in
    let ended = scan_rows stride cur ref n (row + 1) (closed ++ r ∷ []) none in
    if dirty then longer else ended

-- `t6_compute_frame_damage`; `reference` is `last_sent_frame`.
unfoldable pub compute_frame_damage : ℕ → ℕ → List ℕ → Option (List ℕ) → Bool → FrameDamage
unfolding scan_rows
compute_frame_damage width height pixels reference valid = elim reference [
  | none ↦ whole_frame
  | some ref ↦
      if valid then scan_rows (u32 (width * 4)) pixels ref height 0 [] none else whole_frame
]

-- `memcpy(dst + offset, src + offset, size)`. The destination keeps its length; of a copy that is too long only what fits is kept.
abbrev pub copy_range : ℕ → ℕ → List ℕ → List ℕ → List ℕ
copy_range offset size src dst =
    take (length dst) (take offset dst ++ take size (drop offset src) ++ drop (offset + size) dst)

-- The loop that brings the reference frame up to date.
abbrev pub copy_ranges : ℕ → List DirtyRange → List ℕ → List ℕ → List ℕ
copy_ranges stride [] src dst = dst
copy_ranges stride (r ∷ rs) src dst =
    copy_ranges stride rs src
      (copy_range (u32 (r.y_start * stride)) (u32 (r.y_count * stride)) src dst)
