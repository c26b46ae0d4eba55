-- ===== src/Driver/Damage/Rows.antt =====
-- Copies between frames, byte by byte, for the damage tracking of kernel/trigger6_drv.c.
use mathlib.Core.Path.{ap₂}
use native.Mathlib.Nat.{div-add-mod', mod-lt, mul-le-mul_right}
use jcd543_mct_t6_linux_driv.Prelude.{
  ℕ, zero, suc, ◌+◌, ◌-◌, ◌*◌, ◌/◌, ◌%◌, ◌^◌, ◌≤◌, ◌<◌, ◌≡◌, ◌↔◌, ◌∙◌, sym, ap, refl, Bool, false,
  ◌&&◌, ◌||◌, ltb, leb, if◌then◌else◌, List, [], ◌∷◌, ◌++◌, length, take, drop, get_or, arith,
  length-take, length-drop, length-append, dec_lt,
}
use jcd543_mct_t6_linux_driv.Prelude.Words.{u32}
use jcd543_mct_t6_linux_driv.Driver.Damage.{DirtyRange, copy_range, copy_ranges}

pub get_or-append :
    (xs ys : List ℕ) (i : ℕ)
    → get_or (xs ++ ys) i 0
      ≡ (if ltb i (length xs) then get_or xs i 0 else get_or ys (i - length xs) 0)
get_or-append [] ys zero = refl
get_or-append [] ys (suc i) = let e : suc i - 0 ≡ suc i = omega arith in ground (arith, e)
get_or-append (x ∷ xs) ys zero = ground arith
get_or-append (x ∷ xs) ys (suc i) = ground (arith, get_or-append xs ys i)

pub get_or-take : (n : ℕ) (xs : List ℕ) (i : ℕ) → i < n → get_or (take n xs) i 0 ≡ get_or xs i 0
get_or-take zero xs i h = absurd (omega arith)
get_or-take (suc n) [] i h = refl
get_or-take (suc n) (x ∷ xs) zero h = refl
get_or-take (suc n) (x ∷ xs) (suc i) h = get_or-take n xs i (omega arith)

pub get_or-drop : (n : ℕ) (xs : List ℕ) (i : ℕ) → get_or (drop n xs) i 0 ≡ get_or xs (n + i) 0
get_or-drop zero xs i = ap (λ (k : ℕ). get_or xs k 0) (omega arith)
get_or-drop (suc n) [] i = refl
get_or-drop (suc n) (x ∷ xs) i =
    let e : suc n + i ≡ suc (n + i) = omega arith in rw e (get_or-drop n xs i)

pub take_exact : (n : ℕ) (xs : List ℕ) → length xs ≡ n → take n xs ≡ xs
take_exact zero [] h = refl
take_exact zero (x ∷ xs) h = absurd (omega arith)
take_exact (suc n) [] h = refl
take_exact (suc n) (x ∷ xs) h = ap (λ (t : List ℕ). x ∷ t) (take_exact n xs (omega arith))

-- A copy within both buffers, in parts.
pub copy_range_parts :
    (off n : ℕ) (src dst : List ℕ)
    → length src ≡ length dst
    → off + n ≤ length dst
    → copy_range off n src dst ≡ take off dst ++ take n (drop off src) ++ drop (off + n) dst
copy_range_parts off n src dst e h =
    take_exact (length dst) (take off dst ++ take n (drop off src) ++ drop (off + n) dst) (
      omega (
        arith,
        length-append (take off dst ++ take n (drop off src)) (drop (off + n) dst),
        length-append (take off dst) (take n (drop off src)),
        length-take off dst,
        length-take n (drop off src),
        length-drop off src,
        length-drop (off + n) dst,
      ))

pub length-copy_range :
    (off n : ℕ) (src dst : List ℕ)
    → length src ≡ length dst
    → off + n ≤ length dst
    → length (copy_range off n src dst) ≡ length dst
length-copy_range off n src dst e h = omega (
  arith,
  ap (λ (xs : List ℕ). length xs) (copy_range_parts off n src dst e h),
  length-append (take off dst ++ take n (drop off src)) (drop (off + n) dst),
  length-append (take off dst) (take n (drop off src)),
  length-take off dst,
  length-take n (drop off src),
  length-drop off src,
  length-drop (off + n) dst,
)

-- A copied frame has the source's bytes in the range, and its own elsewhere.
pub get_or-copy_range :
    (off n : ℕ) (src dst : List ℕ) (i : ℕ)
    → length src ≡ length dst
    → off + n ≤ length dst
    → get_or (copy_range off n src dst) i 0
      ≡ (if leb off i && ltb i (off + n) then get_or src i 0 else get_or dst i 0)
get_or-copy_range off n src dst i e h = rw (copy_range_parts off n src dst e h) (
    ground (
      arith,
      get_or-append (take off dst ++ take n (drop off src)) (drop (off + n) dst) i,
      get_or-append (take off dst) (take n (drop off src)) i,
      length-append (take off dst) (take n (drop off src)),
      length-take off dst,
      length-take n (drop off src),
      length-drop off src,
      length-drop (off + n) dst,
      get_or-take off dst i,
      get_or-take n (drop off src) (i - off),
      get_or-drop off src (i - off),
      get_or-drop (off + n) dst (i - (off + n)),
    ))

pub get_or_ext :
    (xs ys : List ℕ) → length xs ≡ length ys → ((i : ℕ) → get_or xs i 0 ≡ get_or ys i 0) → xs ≡ ys
get_or_ext [] [] e h = refl
get_or_ext [] (y ∷ ys) e h = absurd (omega arith)
get_or_ext (x ∷ xs) [] e h = absurd (omega arith)
get_or_ext (x ∷ xs) (y ∷ ys) e h = ap₂ ◌∷◌ (h 0) (get_or_ext xs ys (omega arith) (λ i. h (suc i)))

mul_add : (s a b : ℕ) → (a + b) * s ≡ a * s + b * s
mul_add s a b = omega arith

rows_fit : (s a b c : ℕ) → a + b ≤ c → a * s + b * s ≤ c * s
rows_fit s a b c h = omega (arith, mul-le-mul_right s h)

row_start : (stride i a : ℕ) → 0 < stride → (a * stride ≤ i) ↔ (a ≤ i / stride)
row_start stride i a h =
    let q : ℕ = i / stride in
    let split : q * stride + i % stride ≡ i = div-add-mod' i stride in
    let small : i % stride < stride = mod-lt i h in
    elim (dec_lt q a) [
      | yes p ↦
          (let g : suc q * stride ≤ a * stride = mul-le-mul_right stride p in
            ((λ k. absurd (omega (arith, mul_add stride q 1))), (λ k. absurd (omega arith))))
      | no p ↦
          (let g : a * stride ≤ q * stride = mul-le-mul_right stride (omega arith) in
            ((λ k. omega arith), (λ k. omega arith)))
    ]

-- A byte of index `i` is in the row `i / stride`.
pub row_bounds :
    (stride i a b : ℕ)
    → 0 < stride
    → (leb (a * stride) i && ltb i (a * stride + b * stride))
      ≡ (leb a (i / stride) && ltb (i / stride) (a + b))
row_bounds stride i a b h =
    ground (arith, row_start stride i a h, row_start stride i (a + b) h, mul_add stride a b)

-- Whether one of the ranges has the row.
abbrev pub covers : List DirtyRange → ℕ → Bool
covers [] y = false
covers (r ∷ rs) y = leb r.y_start y && ltb y (r.y_start + r.y_count) || covers rs y

-- All ranges lie in a frame of `height` rows.
abbrev pub AllInside : ℕ → List DirtyRange → Type 0
AllInside height [] = Unit
AllInside height (r ∷ rs) = (r.y_start + r.y_count ≤ height) × AllInside height rs

-- The place and the size of a range in a frame of less than 2^32 bytes do not wrap.
range_small : (a b c : ℕ) → a + b ≤ c → c < 2 ^ 32 → (u32 a ≡ a) × (u32 b ≡ b)
range_small a b c h small = (omega arith, omega arith)

pub length-copy_ranges :
    (stride height : ℕ) (rs : List DirtyRange) (src dst : List ℕ)
    → length src ≡ height * stride
    → length dst ≡ height * stride
    → height * stride < 2 ^ 32
    → AllInside height rs
    → length (copy_ranges stride rs src dst) ≡ height * stride
length-copy_ranges stride height [] src dst e f small h = f
length-copy_ranges stride height (r ∷ rs) src dst e f small h =
    let off = r.y_start * stride in
    let n = r.y_count * stride in
    let fits = rows_fit stride r.y_start r.y_count height h.0 in
    let (start, size) = range_small off n (height * stride) fits small in
    rw (start, size)
      (length-copy_ranges stride height rs src (copy_range off n src dst) e
        (length-copy_range off n src dst (e ∙ sym f) (rw f fits) ∙ f) small h.1)

pub get_or-copy_ranges :
    (stride height : ℕ) (rs : List DirtyRange) (src dst : List ℕ) (i : ℕ)
    → 0 < stride
    → length src ≡ height * stride
    → length dst ≡ height * stride
    → height * stride < 2 ^ 32
    → AllInside height rs
    → get_or (copy_ranges stride rs src dst) i 0
      ≡ (if covers rs (i / stride) then get_or src i 0 else get_or dst i 0)
get_or-copy_ranges stride height [] src dst i pos e f small h = refl
get_or-copy_ranges stride height (r ∷ rs) src dst i pos e f small h =
    let off = r.y_start * stride in
    let n = r.y_count * stride in
    let within = rows_fit stride r.y_start r.y_count height h.0 in
    let fits : off + n ≤ length dst = rw f within in
    let same : length src ≡ length dst = e ∙ sym f in
    let here = get_or-copy_range off n src dst i same fits in
    let there =
      get_or-copy_ranges stride height rs src (copy_range off n src dst) i pos e
        (length-copy_range off n src dst same fits ∙ f) small h.1 in
    let row = row_bounds stride i r.y_start r.y_count pos in
    let (start, size) = range_small off n (height * stride) within small in
    rw (start, size) (ground (arith, here, there, row))
