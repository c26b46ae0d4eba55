-- ===== src/Codec/Quant/Span.antt =====
-- kernel/trigger6_codec.c: how large a quantised coefficient can be, by the weights of the DCT matrix.
use native.Mathlib.Nat.{mul-le-mul_right}
use jcd543_mct_t6_linux_driv.Prelude.{
  ℕ, zero, suc, ◌+◌, ◌-◌, ◌*◌, ◌/◌, ◌≤◌, ◌<◌, ◌≡◌, refl, ap, ◌∙◌, List, arith, dec_lt,
}
use jcd543_mct_t6_linux_driv.Prelude.Int.{ℤ, pos, pos_part, neg_part, sub_ℕ, ◌+ℤ◌, ◌*ℤ◌}
use jcd543_mct_t6_linux_driv.Codec.Quant.{sum_from, tabulate, at, dct_at, dct_rows, dct_column}

-- From -down to up.
pub record IsWithin (down up : ℕ) (x : ℤ) : Type 0 where
  pub below : neg_part x ≤ down
  pub above : pos_part x ≤ up

+ℤ-IsWithin :
    {n p m q : ℕ} {a b : ℤ} → IsWithin n p a → IsWithin m q b → IsWithin (n + m) (p + q) (a +ℤ b)
unfolding ◌+ℤ◌
+ℤ-IsWithin {a} {b} s t = record {
  below = ground (arith, s.below, t.below);
  above = ground (arith, s.above, t.above);
}

sub_ℕ-parts : (a b : ℕ) → (pos_part (sub_ℕ a b) ≤ a) × (neg_part (sub_ℕ a b) ≤ b)
sub_ℕ-parts a b = ground arith

*ℤ-IsWithin :
    {n p : ℕ} {x : ℤ} (d : ℤ)
    → IsWithin n p x
    → IsWithin (n * pos_part d + p * neg_part d) (p * pos_part d + n * neg_part d) (x *ℤ d)
unfolding ◌*ℤ◌
*ℤ-IsWithin {n} {p} {x} d s =
    let u : ℕ = pos_part d in
    let v : ℕ = neg_part d in
    let (high, low) =
      sub_ℕ-parts (pos_part x * u + neg_part x * v) (pos_part x * v + neg_part x * u) in
    let a : pos_part x * u ≤ p * u = mul-le-mul_right u s.above in
    let b : neg_part x * v ≤ n * v = mul-le-mul_right v s.below in
    let c : pos_part x * v ≤ p * v = mul-le-mul_right v s.above in
    let e : neg_part x * u ≤ n * u = mul-le-mul_right u s.below in
    record { below = omega (arith, low, c, e); above = omega (arith, high, a, b) }

-- The sum of `k` numbers from index `i` on.
unfoldable pub total : ℕ → ℕ → (ℕ → ℕ) → ℕ
total zero i f = 0
total (suc k) i f = f i + total k (i + 1) f

unfoldable pub ups : (ℕ → ℤ) → ℕ → ℕ → ℕ
unfolding total
ups d k i = total k i λ j. pos_part (d j)

unfoldable pub downs : (ℕ → ℤ) → ℕ → ℕ → ℕ
unfolding total
downs d k i = total k i λ j. neg_part (d j)

distribute : (n a s : ℕ) → n * a + n * s ≡ n * (a + s)
distribute n a s = grind arith

sum_from-IsWithin :
    {n p : ℕ} (x d : ℕ → ℤ)
    → ((j : ℕ) → IsWithin n p (x j))
    → (k i : ℕ)
    → IsWithin
        (n * ups d k i + p * downs d k i)
        (p * ups d k i + n * downs d k i)
        (sum_from k i λ j. x j *ℤ d j)
unfolding ups downs total
sum_from-IsWithin x d h zero i = record { below = omega arith; above = omega arith }
sum_from-IsWithin {n} {p} x d h (suc k) i =
    let rest = sum_from-IsWithin x d h k (i + 1) in
    let both = +ℤ-IsWithin (*ℤ-IsWithin (d i) (h i)) rest in
    let u = ups d k (i + 1) in
    let v = downs d k (i + 1) in
    record {
      below =
          omega
            (arith, both.below, distribute n (pos_part (d i)) u, distribute p (neg_part (d i)) v);
      above =
          omega
            (arith, both.above, distribute p (pos_part (d i)) u, distribute n (neg_part (d i)) v);
    }

pub tabulate-at : (f : ℕ → ℤ) (n i j : ℕ) → j < n → at (tabulate n i f) j ≡ f (i + j)
tabulate-at f zero i j h = absurd (omega arith)
tabulate-at f (suc n) i zero h = let e : i + 0 ≡ i = omega arith in rw e
tabulate-at f (suc n) i (suc j) h =
    let e : i + 1 + j ≡ i + suc j = omega arith in tabulate-at f n (i + 1) j (omega arith) ∙ ap f e

pub tabulate-past : (f : ℕ → ℤ) (n i j : ℕ) → n ≤ j → at (tabulate n i f) j ≡ pos 0
tabulate-past f zero i j h = refl
tabulate-past f (suc n) i zero h = absurd (omega arith)
tabulate-past f (suc n) i (suc j) h = tabulate-past f n (i + 1) j (omega arith)

pub zero-IsWithin : (n p : ℕ) → IsWithin n p (pos 0)
zero-IsWithin n p = record { below = omega arith; above = omega arith }

-- What every sample of a block is: a byte less 128.
pub record IsSamples (src : List ℤ) : Type 0 where
  pub sample : (i : ℕ) → IsWithin 128 127 (at src i)

-- Down and up, for a row transformed with row `u` of the matrix.
unfoldable pub row_down : ℕ → ℕ
unfolding ups downs
row_down u = 128 * ups (dct_at u) 8 0 + 127 * downs (dct_at u) 8 0

unfoldable pub row_up : ℕ → ℕ
unfolding ups downs
row_up u = 127 * ups (dct_at u) 8 0 + 128 * downs (dct_at u) 8 0

dct_rows-IsWithin :
    (src : List ℤ) (col u : ℕ)
    → IsSamples src
    → u < 8
    → IsWithin (row_down u) (row_up u) (at (dct_rows src) (col * 8 + u))
unfolding dct_rows row_down row_up
dct_rows-IsWithin src col u s h = elim (dec_lt (col * 8 + u) 64) [
  | yes l ↦
      (let i : ℕ = col * 8 + u in
        let f : ℕ → ℤ =
          λ i. sum_from 8 0 λ col. at src (i / 8 * 8 + col) *ℤ dct_at (i - i / 8 * 8) col in
        let first : 0 + i ≡ i = omega arith in
        let row : i - i / 8 * 8 ≡ u = omega arith in
        rw (tabulate-at f 64 0 i l ∙ ap f first, row)
          (sum_from-IsWithin (λ col. at src (i / 8 * 8 + col)) (dct_at u)
            (λ j. s.sample (i / 8 * 8 + j)) 8 0))
  | no m ↦
      rw
        (tabulate-past
          (λ i. sum_from 8 0 λ col. at src (i / 8 * 8 + col) *ℤ dct_at (i - i / 8 * 8) col) 64 0
          (col * 8 + u) (omega arith))
        (zero-IsWithin _ _)
]

-- Down and up for the sum behind a coefficient.
unfoldable pub coefficient_down : ℕ → ℕ → ℕ
unfolding row_down row_up
coefficient_down row u = row_down u * ups (dct_at row) 8 0 + row_up u * downs (dct_at row) 8 0

unfoldable pub coefficient_up : ℕ → ℕ → ℕ
unfolding row_down row_up
coefficient_up row u = row_up u * ups (dct_at row) 8 0 + row_down u * downs (dct_at row) 8 0

pub dct_column-IsWithin :
    (src : List ℤ) (row u : ℕ)
    → IsSamples src
    → u < 8
    → IsWithin (coefficient_down row u) (coefficient_up row u) (dct_column (dct_rows src) row u)
unfolding dct_column coefficient_down coefficient_up
dct_column-IsWithin src row u s h =
    sum_from-IsWithin (λ col. at (dct_rows src) (col * 8 + u)) (dct_at row)
      (λ col. dct_rows-IsWithin src col u s h) 8 0
