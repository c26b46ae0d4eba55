-- ===== src/Codec/Quant.antt =====
-- kernel/trigger6_codec.c: quantisation tables, their reciprocals, and the forward DCT.
pub mod Range
pub mod Span
pub mod Magnitude
use jcd543_mct_t6_linux_driv.Prelude.{
  ℕ, zero, suc, ◌+◌, ◌-◌, ◌*◌, ◌/◌, ◌^◌, ltb, ◌==◌, if◌then◌else◌, List, [], ◌∷◌, map, get_or,
}
use jcd543_mct_t6_linux_driv.Prelude.Words.{u32, u64, ◌>>>◌}
use jcd543_mct_t6_linux_driv.Prelude.Int.{ℤ, pos, neg, ◌+ℤ◌, ◌*ℤ◌, magnitude, clamp_ℤ, is_negative}
use jcd543_mct_t6_linux_driv.Prelude.Kernel.{clamp, div_round_closest}
use jcd543_mct_t6_linux_driv.Codec.Tables.{dct_matrix}

abbrev pub dct_scale : ℕ
dct_scale = 16384

pub quality_scale : ℕ → ℕ
quality_scale quality = let q = clamp 1 100 quality in if ltb q 50 then 5000 / q else 200 - 2 * q

-- One round of the loop.
pub scale_entry : ℕ → ℕ → ℕ
scale_entry scale base = clamp 1 255 (div_round_closest (u32 (base * scale)) 100)

unfoldable pub build_qtable : List ℕ → ℕ → List ℕ
unfolding quality_scale scale_entry
build_qtable base quality = map (scale_entry (quality_scale quality)) base

-- The divisor that a table entry stands for, and its reciprocal scaled by 2 ^ 48.
pub divisor : ℕ → ℕ
divisor q = u64 (dct_scale * dct_scale * (if q == 0 then 1 else q))

pub recip : ℕ → ℕ
unfolding divisor
recip q = let d = divisor q in u64 (2 ^ 48 + d / 2) / d

-- `struct t6_dct_qtable`, the array of its reciprocals.
unfoldable pub precompute_dct_qtable : List ℕ → List ℕ
unfolding recip
precompute_dct_qtable qtable = map recip qtable

-- `for (i = 0; i < n; i++) sum += f(i)`, from index `i` on.
abbrev pub sum_from : ℕ → ℕ → (ℕ → ℤ) → ℤ
sum_from zero i f = pos 0
sum_from (suc n) i f = f i +ℤ sum_from n (i + 1) f

-- An array whose element at `i` is `f(i)`, from index `i` on.
abbrev pub tabulate {ℓ} : {A : Type ℓ} → ℕ → ℕ → (ℕ → A) → List A
tabulate zero i f = []
tabulate (suc n) i f = f i ∷ tabulate n (i + 1) f

abbrev pub at : List ℤ → ℕ → ℤ
at xs i = get_or xs i (pos 0)

abbrev pub dct_at : ℕ → ℕ → ℤ
dct_at u col = at (get_or dct_matrix u []) col

-- `row_tmp`: the transform of each row.
pub dct_rows : List ℤ → List ℤ
dct_rows src =
    tabulate 64 0 λ i. sum_from 8 0 λ col. at src (i / 8 * 8 + col) *ℤ dct_at (i - i / 8 * 8) col

-- The sum of the second loop for the coefficient at `row * 8 + u`.
pub dct_column : List ℤ → ℕ → ℕ → ℤ
dct_column row_tmp row u = sum_from 8 0 λ col. at row_tmp (col * 8 + u) *ℤ dct_at row col

-- Descale and quantise by one multiplication and shift.
unfoldable pub quantize : ℕ → ℤ → ℤ
quantize r sum =
    let q = u64 (magnitude sum * r + 2 ^ 47) >>> 48 in
    clamp_ℤ (neg 32767) (pos 32767) (if is_negative sum then neg q else pos q)

unfoldable pub fdct_quantize : List ℤ → List ℕ → List ℤ
unfolding dct_rows dct_column quantize
fdct_quantize src dq =
    let row_tmp = dct_rows src in
    tabulate 64 0
      λ idx. quantize (get_or dq idx 0) (dct_column row_tmp (idx / 8) (idx - idx / 8 * 8))
