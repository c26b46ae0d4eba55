-- ===== src/Codec/Quant/Range.antt =====
-- kernel/trigger6_codec.c: the entries of a quantisation table fit a byte and are never zero.
use native.Mathlib.Nat.{mul_comm, mul-le-mul, mul-le-mul_left, mul-div-le, le-div_iff_mul-le}
use jcd543_mct_t6_linux_driv.Prelude.{ℕ, ◌*◌, ◌/◌, ◌≤◌, ◌<◌, List, [], ◌∷◌, map, arith}
use jcd543_mct_t6_linux_driv.Prelude.Kernel.{clamp}
use jcd543_mct_t6_linux_driv.Codec.Quant.{quality_scale, scale_entry, build_qtable}

-- Every entry is from `lo` to `hi`.
abbrev pub AllWithin : ℕ → ℕ → List ℕ → Type 0
AllWithin lo hi [] = Unit
AllWithin lo hi (x ∷ xs) = (lo ≤ x) × (x ≤ hi) × AllWithin lo hi xs

scale_entry_range : (s b : ℕ) → (1 ≤ scale_entry s b) × (scale_entry s b ≤ 255)
unfolding scale_entry
scale_entry_range s b = ground arith

map-AllWithin : (s : ℕ) (base : List ℕ) → AllWithin 1 255 (map (scale_entry s) base)
map-AllWithin s [] = tt
map-AllWithin s (b ∷ bs) = let (lo, hi) = scale_entry_range s b in (lo, hi, map-AllWithin s bs)

scale_entry_mono : (s t b : ℕ) → s ≤ t → t ≤ 5000 → b ≤ 255 → scale_entry s b ≤ scale_entry t b
unfolding scale_entry
scale_entry_mono s t b h k m =
    let le : b * s ≤ b * t = mul-le-mul_left b h in
    let top : b * t ≤ 255 * 5000 = mul-le-mul m k in ground arith

div_anti : (a p q : ℕ) → 0 < p → p ≤ q → a / q ≤ a / p
div_anti a p q pos h =
    let le : a / q * p ≤ a / q * q = mul-le-mul_left (a / q) h in
    (le-div_iff_mul-le pos).1 (omega (arith, le, mul-div-le a q, mul_comm (a / q) q))

quality_scale_anti :
    (p q : ℕ) → p ≤ q → (quality_scale q ≤ quality_scale p) × (quality_scale p ≤ 5000)
unfolding quality_scale
quality_scale_anti p q h =
    let low : ℕ = clamp 1 100 p in
    let high : ℕ = clamp 1 100 q in
    ground (arith, div_anti 5000 low high, div_anti 5000 low 50, div_anti 5000 1 low)

-- Both tables have the same length, and no entry of the first is larger than that of the second.
abbrev pub AllBelow : List ℕ → List ℕ → Type 0
AllBelow [] [] = Unit
AllBelow (x ∷ xs) (y ∷ ys) = (x ≤ y) × AllBelow xs ys
AllBelow _ _ = ⊥

map-AllBelow :
    (s t : ℕ) (base : List ℕ)
    → s ≤ t
    → t ≤ 5000
    → AllWithin 0 255 base
    → AllBelow (map (scale_entry s) base) (map (scale_entry t) base)
map-AllBelow s t [] h k w = tt
map-AllBelow s t (b ∷ bs) h k w = (scale_entry_mono s t b h k w.1, map-AllBelow s t bs h k w.2)

-- For a base table of bytes and any two qualities of which the second is no lower, the table of each has
-- entries from 1 to 255, and no entry of the better quality is larger than that of the other.
pub build_qtable_better :
    (base : List ℕ) (p q : ℕ)
    → p ≤ q
    → AllWithin 0 255 base
    → AllWithin 1 255 (build_qtable base p) × AllBelow (build_qtable base q) (build_qtable base p)
unfolding build_qtable
build_qtable_better base p q h w =
    let (anti, top) = quality_scale_anti p q h in
    (
      map-AllWithin (quality_scale p) base,
      map-AllBelow (quality_scale q) (quality_scale p) base anti top w,
    )
