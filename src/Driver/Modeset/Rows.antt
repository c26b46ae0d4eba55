-- ===== src/Driver/Modeset/Rows.antt =====
-- kernel/trigger6_drv.c: `t6_pack_xrgb8888_tight` byte by byte.
use mathlib.Core.Path.{subst}
use native.Mathlib.Nat.{mul-le-mul_right, mod-eq_of_lt}
use jcd543_mct_t6_linux_driv.Prelude.{
  ℕ, zero, suc, ◌+◌, ◌-◌, ◌*◌, ◌≤◌, ◌<◌, ◌^◌, ◌≡◌, ◌⊎◌, inl, ◌∙◌, sym, ap, refl, ◌&&◌, leb, ltb,
  if◌then◌else◌, some, List, ◌++◌, length, take, drop, get_or, arith, length-take, length-drop,
  length-append, dec_lt,
}
use jcd543_mct_t6_linux_driv.Prelude.Int.{pos}
use jcd543_mct_t6_linux_driv.Driver.Damage.Rows.{
  get_or-append, get_or-take, get_or-drop, take_exact,
}
use jcd543_mct_t6_linux_driv.Driver.Jpeg.{put_at, bytes_of}
use jcd543_mct_t6_linux_driv.Driver.Modeset.{pack_rows, pack_xrgb8888_tight}

length-put_at :
    (off : ℕ) (bytes buf : List ℕ)
    → off + length bytes ≤ length buf
    → length (put_at off bytes buf) ≡ length buf
length-put_at off bytes buf h = omega (
  arith,
  length-take (length buf) (take off buf ++ (bytes ++ drop (off + length bytes) buf)),
  length-append (take off buf) (bytes ++ drop (off + length bytes) buf),
  length-append bytes (drop (off + length bytes) buf),
  length-take off buf,
  length-drop (off + length bytes) buf,
)

-- A copy that fits, in parts.
put_at_parts :
    (off : ℕ) (bytes buf : List ℕ)
    → off + length bytes ≤ length buf
    → put_at off bytes buf ≡ take off buf ++ (bytes ++ drop (off + length bytes) buf)
put_at_parts off bytes buf h =
    take_exact (length buf) (take off buf ++ (bytes ++ drop (off + length bytes) buf)) (
      omega (
        arith,
        length-append (take off buf) (bytes ++ drop (off + length bytes) buf),
        length-append bytes (drop (off + length bytes) buf),
        length-take off buf,
        length-drop (off + length bytes) buf,
      ))

-- A buffer has the bytes that were put into it, and its own elsewhere.
get_or-put_at :
    (off : ℕ) (bytes buf : List ℕ) (i : ℕ)
    → off + length bytes ≤ length buf
    → get_or (put_at off bytes buf) i 0 ≡ (
        if leb off i && ltb i (off + length bytes)
        then get_or bytes (i - off) 0
        else get_or buf i 0)
get_or-put_at off bytes buf i h =
    let tail = drop (off + length bytes) buf in
    rw (put_at_parts off bytes buf h) elim (dec_lt i off) [
      | yes p ↦ ground (
        arith,
        get_or-append (take off buf) (bytes ++ tail) i,
        length-take off buf,
        get_or-take off buf i p,
      )
      | no p ↦
          let at : (off + length bytes) + (i - off - length bytes)
              ≡ (if ltb i (off + length bytes) then off + length bytes else i) =
            ground arith in
          ground (
            arith,
            get_or-append (take off buf) (bytes ++ tail) i,
            get_or-append bytes tail (i - off),
            length-take off buf,
            get_or-drop (off + length bytes) buf (i - off - length bytes)
                ∙ ap (λ (k : ℕ). get_or buf k 0) at,
          )
    ]

le_row : (n y : ℕ) → y + 1 ≤ y + suc n
le_row n y = omega arith

cancel : (a x : ℕ) → a + x - a ≡ x
cancel a x = omega arith

module _ (rb stride : ℕ) (src : List ℕ) where
  -- The rows of the source from row `y` on are in the destination, and what lies outside them is the old one.
  pub record IsPacked (n y : ℕ) (dst d : List ℕ) : Type 0 where
    pub same_length : length d ≡ length dst
    pub outside : (i : ℕ) → (i < y * rb) ⊎ ((y + n) * rb ≤ i) → get_or d i 0 ≡ get_or dst i 0
    pub rows :
        (j x : ℕ)
        → j < n
        → x < rb
        → get_or d ((y + j) * rb + x) 0 ≡ get_or src ((y + j) * stride + x) 0

  row-IsPacked :
      (y : ℕ) (dst : List ℕ)
      → rb ≤ stride
      → (y + 1) * rb ≤ length dst
      → (y + 1) * stride ≤ length src
      → IsPacked 1 y dst (put_at (y * rb) (take rb (drop (y * stride) src)) dst)
  row-IsPacked y dst wide h k =
      let row = take rb (drop (y * stride) src) in
      let size : length row ≡ rb =
        omega (arith, length-take rb (drop (y * stride) src), length-drop (y * stride) src) in
      let fits : y * rb + length row ≤ length dst = omega (arith, size) in
      record {
        same_length = length-put_at (y * rb) row dst fits;
        outside = λ (i : ℕ). λ (o : (i < y * rb) ⊎ ((y + 1) * rb ≤ i)).
            ground (arith, get_or-put_at (y * rb) row dst i fits, size);
        rows = λ (j x : ℕ). λ (a : j < 1). λ (b : x < rb).
            let here : y + j ≡ y = omega (arith, a) in
            rw here (
              ground (
                arith,
                b,
                get_or-put_at (y * rb) row dst (y * rb + x) fits,
                size,
                get_or-take rb (drop (y * stride) src) x b,
                get_or-drop (y * stride) src x,
                cancel (y * rb) x,
              ));
      }

  -- One row, and then the others.
  then-IsPacked :
      (n y : ℕ) (a b c : List ℕ)
      → IsPacked 1 y a b
      → IsPacked n (y + 1) b c
      → IsPacked (suc n) y a c
  then-IsPacked n y a b c u v = record {
    same_length = v.same_length ∙ u.same_length;
    outside = λ (i : ℕ). λ (o : (i < y * rb) ⊎ ((y + suc n) * rb ≤ i)).
        v.outside i (ground arith) ∙ u.outside i (ground arith);
    rows = λ (j x : ℕ). λ (p : j < suc n). λ (q : x < rb). elim (dec_lt 0 j) [
      | yes later ↦
          let e : y + 1 + (j - 1) ≡ y + j = omega (arith, later) in
          subst (λ (r : ℕ). get_or c (r * rb + x) 0 ≡ get_or src (r * stride + x) 0) e
            (v.rows (j - 1) x (omega (arith, later, p)) q)
      | no first ↦
          let e : y + j ≡ y = omega (arith, first) in
          v.outside ((y + j) * rb + x) (inl (omega (arith, q, ap (λ (k : ℕ). k * rb) e)))
          ∙ u.rows j x (omega (arith, first)) q
    ];
  }

  pack_rows-IsPacked :
      (n y : ℕ) (dst : List ℕ)
      → rb ≤ stride
      → (y + n) * rb ≤ length dst
      → (y + n) * stride ≤ length src
      → IsPacked n y dst (pack_rows rb stride src n y dst)
  unfolding pack_rows
  pack_rows-IsPacked zero y dst wide h k = record {
    same_length = refl;
    outside = λ (i : ℕ). λ (o : (i < y * rb) ⊎ ((y + 0) * rb ≤ i)). refl;
    rows = λ (j x : ℕ). λ (p : j < 0). λ (q : x < rb). absurd (omega (arith, p));
  }
  pack_rows-IsPacked (suc n) y dst wide h k =
      let row = take rb (drop (y * stride) src) in
      let next = put_at (y * rb) row dst in
      let step : y + 1 + n ≡ y + suc n = omega arith in
      let hr : (y + 1) * rb ≤ length dst = omega (arith, h, mul-le-mul_right rb (le_row n y)) in
      let kr : (y + 1) * stride ≤ length src =
        omega (arith, k, mul-le-mul_right stride (le_row n y)) in
      let one = row-IsPacked y dst wide hr kr in
      then-IsPacked n y dst next (pack_rows rb stride src n (y + 1) next) one (
        pack_rows-IsPacked n (y + 1) next wide
          (rw one.same_length (subst (λ (r : ℕ). r * rb ≤ length dst) (sym step) h))
          (subst (λ (r : ℕ). r * stride ≤ length src) (sym step) k))

-- Where the rows of the source are as long as those of the destination, they are copied at once.
pack_all-IsPacked :
    (rb height : ℕ) (src dst : List ℕ)
    → height * rb ≤ length dst
    → height * rb ≤ length src
    → IsPacked rb rb src height 0 dst (put_at 0 (take (rb * height) src) dst)
pack_all-IsPacked rb height src dst h k =
    let all = take (rb * height) src in
    let size : length all ≡ height * rb = omega (arith, length-take (rb * height) src) in
    let fits : 0 + length all ≤ length dst = omega (arith, size, h) in
    record {
      same_length = length-put_at 0 all dst fits;
      outside = λ (i : ℕ). λ (o : (i < 0 * rb) ⊎ ((0 + height) * rb ≤ i)).
          ground (arith, get_or-put_at 0 all dst i fits, size);
      rows = λ (j x : ℕ). λ (p : j < height). λ (q : x < rb).
          let inside : j * rb + x < rb * height = omega (arith, q, mul-le-mul_right rb p) in
          ground (
            arith,
            get_or-put_at 0 all dst (j * rb + x) fits,
            size,
            inside,
            get_or-take (rb * height) src (j * rb + x) inside,
          );
    }

-- For two buffers that are there, rows of 32-bit length no longer than the stride, a destination of at least `dst_size` bytes that holds the
-- packed frame, and a source that holds its rows, packing succeeds: each row of the source is the row of the
-- packed frame, and no byte behind the frame changes, nor the length of the destination.
pub pack_xrgb8888_tight-IsPacked :
    (width height stride dst_size : ℕ) (src dst : List ℕ)
    → width * 4 < 2 ^ 32
    → width * 4 ≤ stride
    → width * 4 * height ≤ dst_size
    → dst_size ≤ length dst
    → height * stride ≤ length src
    → let (ret, out) = pack_xrgb8888_tight width height (some src) stride (some dst) dst_size in
      (ret ≡ pos 0) × IsPacked (width * 4) stride src height 0 dst (bytes_of out)
unfolding pack_xrgb8888_tight
pack_xrgb8888_tight-IsPacked width height stride dst_size src dst small wide room whole given =
    let rb = width * 4 in
    let h : height * rb ≤ length dst = omega (arith, room, whole) in
    let rows =
      pack_rows-IsPacked rb stride src height 0 dst wide (omega (arith, h))
        (omega (arith, given)) in
    let all = λ (e : stride ≡ rb).
      let k : height * rb ≤ length src = subst (λ (r : ℕ). height * r ≤ length src) e given in
      subst (λ (r : ℕ). IsPacked rb r src height 0 dst (put_at 0 (take (rb * height) src) dst))
        (sym e) (pack_all-IsPacked rb height src dst h k) in
    rw (mod-eq_of_lt small) (ground (arith, rows, all, wide, room))
