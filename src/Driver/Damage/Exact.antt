-- ===== src/Driver/Damage/Exact.antt =====
-- kernel/trigger6_drv.c: the damage of a frame is exactly its changed rows.
use native.Mathlib.Nat.{div-add-mod', mod-lt, mul-le-mul_right}
use jcd543_mct_t6_linux_driv.Prelude.{
  ℕ, zero, suc, ◌+◌, ◌*◌, ◌/◌, ◌%◌, ◌^◌, ◌≤◌, ◌<◌, ◌≡◌, ◌∙◌, sym, ap, refl, inl, inr, Bool, true,
  false, ◌||◌, not, leb, if◌then◌else◌, Option, none, some, List, [], ◌∷◌, ◌++◌, length, drop,
  get_or, arith, length-append, dec_lt, Bool-cases,
}
use jcd543_mct_t6_linux_driv.Prelude.Words.{u32}
use jcd543_mct_t6_linux_driv.Driver.Damage.{
  DirtyRange, same_bytes, row_of, copy_ranges, scan_rows, compute_frame_damage, max_dirty_ranges,
}
use jcd543_mct_t6_linux_driv.Driver.Damage.Rows.{
  covers, AllInside, get_or-take, get_or-drop, get_or_ext, get_or-copy_ranges, length-copy_ranges,
}

same_bytes-eq : (xs ys : List ℕ) → same_bytes xs ys ≡ true → xs ≡ ys
same_bytes-eq [] [] h = refl
same_bytes-eq [] (y ∷ ys) h = cc
same_bytes-eq (x ∷ xs) [] h = cc
same_bytes-eq (x ∷ xs) (y ∷ ys) h = ground (arith, same_bytes-eq xs ys)

get_or_outside : (xs : List ℕ) (i : ℕ) → length xs ≤ i → get_or xs i 0 ≡ 0
get_or_outside [] i h = refl
get_or_outside (x ∷ xs) zero h = absurd (omega arith)
get_or_outside (x ∷ xs) (suc i) h = get_or_outside xs i (omega arith)

covers-append :
    (rs ss : List DirtyRange) (y : ℕ) → covers (rs ++ ss) y ≡ (covers rs y || covers ss y)
covers-append [] ss y = refl
covers-append (r ∷ rs) ss y = ground (arith, covers-append rs ss y)

AllInside-append :
    (h : ℕ) (rs ss : List DirtyRange) → AllInside h rs → AllInside h ss → AllInside h (rs ++ ss)
AllInside-append h [] ss p q = q
AllInside-append h (r ∷ rs) ss p q = (p.0, AllInside-append h rs ss p.1 q)

AllInside-left : (h : ℕ) (rs ss : List DirtyRange) → AllInside h (rs ++ ss) → AllInside h rs
AllInside-left h [] ss p = tt
AllInside-left h (r ∷ rs) ss p = (p.0, AllInside-left h rs ss p.1)

AllInside-mono : (h k : ℕ) (rs : List DirtyRange) → h ≤ k → AllInside h rs → AllInside k rs
AllInside-mono h k [] le p = tt
AllInside-mono h k (r ∷ rs) le p = (omega (arith, p.0), AllInside-mono h k rs le p.1)

covers_outside : (h y : ℕ) (rs : List DirtyRange) → AllInside h rs → h ≤ y → covers rs y ≡ false
covers_outside h y [] p le = refl
covers_outside h y (r ∷ rs) p le = ground (arith, p.0, covers_outside h y rs p.1 le)

module _ (stride : ℕ) (cur ref : List ℕ) where
  abbrev pub is_same : ℕ → Bool
  is_same y = same_bytes (row_of stride y cur) (row_of stride y ref)

  -- Below row `h` the ranges have exactly the changed rows, and there are not too many of them.
  pub record Tracks (h : ℕ) (rs : List DirtyRange) : Type 0 where
    pub exact : (y : ℕ) → y < h → covers rs y ≡ not (is_same y)
    pub inside : AllInside h rs
    pub few : length rs ≤ max_dirty_ranges

  -- One more row, for which the ranges have the right answer and are right as before on the others.
  Tracks-suc :
      (h : ℕ) (rs ss : List DirtyRange)
      → ((y : ℕ) → y < h → covers ss y ≡ covers rs y)
      → covers ss h ≡ not (is_same h)
      → AllInside (h + 1) ss
      → length ss ≤ max_dirty_ranges
      → Tracks h rs
      → Tracks (h + 1) ss
  Tracks-suc h rs ss old new inside few t = record {
    exact = λ y p. elim (dec_lt y h) [
      | yes q ↦ old y q ∙ t.exact y q
      | no q ↦ (let e : h ≡ y = omega arith in rw (← e) new)
    ];
    inside = inside;
    few = few;
  }

  Tracks-clean : (h : ℕ) (rs : List DirtyRange) → is_same h ≡ true → Tracks h rs → Tracks (h + 1) rs
  Tracks-clean h rs e t =
      Tracks-suc h rs rs (λ y p. refl) (rw e (covers_outside h h rs t.inside (omega arith)))
        (AllInside-mono h (h + 1) rs (omega arith) t.inside) t.few t

  Tracks-open :
      (h : ℕ) (rs : List DirtyRange)
      → is_same h ≡ false
      → length rs < max_dirty_ranges
      → Tracks h rs
      → Tracks (h + 1) (rs ++ record { y_start = h; y_count = 1 } ∷ [])
  Tracks-open h rs e room t =
      let r : DirtyRange = record { y_start = h; y_count = 1 } in
      Tracks-suc h rs (rs ++ r ∷ []) (λ y p. ground (arith, covers-append rs (r ∷ []) y))
        (rw e (ground (arith, covers-append rs (r ∷ []) h)))
        (AllInside-append (h + 1) rs (r ∷ []) (AllInside-mono h (h + 1) rs (omega arith) t.inside)
          (omega arith))
        (omega (arith, length-append rs (r ∷ []))) t

  Tracks-longer :
      (h : ℕ) (rs : List DirtyRange) (r : DirtyRange)
      → is_same h ≡ false
      → r.y_start + r.y_count ≡ h
      → Tracks h (rs ++ r ∷ [])
      → Tracks (h + 1) (rs ++ record r { y_count = r.y_count + 1 } ∷ [])
  Tracks-longer h rs r e end t =
      let s : DirtyRange = record r { y_count = r.y_count + 1 } in
      Tracks-suc h (rs ++ r ∷ []) (rs ++ s ∷ [])
        (λ y p. ground (arith, covers-append rs (r ∷ []) y, covers-append rs (s ∷ []) y))
        (rw e (ground (arith, covers-append rs (s ∷ []) h)))
        (AllInside-append (h + 1) rs (s ∷ [])
          (AllInside-mono h (h + 1) rs (omega arith) (AllInside-left h rs (r ∷ []) t.inside))
          (omega arith))
        (omega (arith, length-append rs (r ∷ []), length-append rs (s ∷ []), t.few)) t

  -- What the loop has tracked so far: the closed ranges, and the current one, which ends at this row.
  abbrev Tracked : ℕ → List DirtyRange → Option DirtyRange → Type 0
  Tracked row closed none = Tracks row closed
  Tracked row closed (some r) = Tracks row (closed ++ r ∷ []) × (r.y_start + r.y_count ≡ row)

  scan_rows-Tracks :
      (n row height : ℕ) (closed : List DirtyRange) (current : Option DirtyRange)
      → row + n ≡ height
      → Tracked row closed current
      → (scan_rows stride cur ref n row closed current).full_frame ≡ false
      → Tracks height (scan_rows stride cur ref n row closed current).ranges
  unfolding scan_rows
  scan_rows-Tracks zero row height closed none e t f =
      let g : row ≡ height = omega arith in rw (← g) t
  scan_rows-Tracks zero row height closed (some r) e t f =
      let g : row ≡ height = omega arith in rw (← g) t.0
  scan_rows-Tracks (suc n) row height closed none e t f = elim (Bool-cases (is_same row)) [
    | inl same ↦ rw same (
        scan_rows-Tracks n (row + 1) height closed none (omega arith)
          (Tracks-clean row closed same t) (rw same at f))
    | inr differs ↦ elim (Bool-cases (leb max_dirty_ranges (length closed))) [
      | inl full ↦ absurd (cc (rw (differs, full) at f))
      | inr room ↦
          rw (differs, room)
            (scan_rows-Tracks n (row + 1) height closed
              (some (record { y_start = row; y_count = 1 })) (omega arith)
              (Tracks-open row closed differs (ground arith) t, refl) (rw (differs, room) at f))
    ]
  ]
  scan_rows-Tracks (suc n) row height closed (some r) e t f = elim (Bool-cases (is_same row)) [
    | inl same ↦ rw same (
        scan_rows-Tracks n (row + 1) height (closed ++ r ∷ []) none (omega arith)
          (Tracks-clean row (closed ++ r ∷ []) same t.0) (rw same at f))
    | inr differs ↦ rw differs (
        scan_rows-Tracks n (row + 1) height closed (some (record r { y_count = r.y_count + 1 }))
          (omega arith) (Tracks-longer row closed r differs t.1 t.0, omega (arith, t.1))
          (rw differs at f))
  ]

  -- A byte of a row that is the same is the same.
  same_byte : (i : ℕ) → 0 < stride → is_same (i / stride) ≡ true → get_or cur i 0 ≡ get_or ref i 0
  same_byte i pos e =
      let q : ℕ = i / stride * stride in
      let split : q + i % stride ≡ i = div-add-mod' i stride in
      let small : i % stride < stride = mod-lt i pos in
      let rows : row_of stride (i / stride) cur ≡ row_of stride (i / stride) ref =
        same_bytes-eq (row_of stride (i / stride) cur) (row_of stride (i / stride) ref) e in
      let there = λ (frame : List ℕ).
        get_or-take stride (drop q frame) (i % stride) small
        ∙ get_or-drop q frame (i % stride)
        ∙ ap (λ (k : ℕ). get_or frame k 0) split in
      sym (there cur) ∙ ap (λ (xs : List ℕ). get_or xs (i % stride) 0) rows ∙ there ref

  -- Copying the changed rows makes the old frame the new one.
  copy_ranges-Tracks :
      (height : ℕ) (rs : List DirtyRange)
      → 0 < stride
      → length cur ≡ height * stride
      → length ref ≡ height * stride
      → height * stride < 2 ^ 32
      → Tracks height rs
      → copy_ranges stride rs cur ref ≡ cur
  copy_ranges-Tracks height rs pos e f small t =
      get_or_ext (copy_ranges stride rs cur ref) cur
        (length-copy_ranges stride height rs cur ref e f small t.inside ∙ sym e)
        λ i. get_or-copy_ranges stride height rs cur ref i pos e f small t.inside ∙ byte i
    where
      byte :
          (i : ℕ)
          → (if covers rs (i / stride) then get_or cur i 0 else get_or ref i 0) ≡ get_or cur i 0
      byte i = elim (dec_lt (i / stride) height) [
        | yes p ↦ elim (Bool-cases (is_same (i / stride))) [
          | inl same ↦ ground (arith, t.exact (i / stride) p, same_byte i pos same)
          | inr differs ↦ ground (arith, t.exact (i / stride) p)
        ]
        | no p ↦
            (let q : height * stride ≤ i / stride * stride =
                mul-le-mul_right stride (omega arith) in
              let outside : height * stride ≤ i = omega (arith, div-add-mod' i stride) in
              ground
                (arith, get_or_outside cur i (omega arith), get_or_outside ref i (omega arith)))
      ]

-- For two frames of a positive width and the right size, whose rows and whole size are less than 2^32 bytes, if the damage is not a full frame, its ranges have exactly
-- the rows that differ, all lie in the frame, there are at most 32 of them, and copying them makes the old
-- frame the new one.
pub compute_frame_damage-Tracks :
    (width height : ℕ) (pixels ref : List ℕ)
    → 0 < width
    → width * 4 < 2 ^ 32
    → height * (width * 4) < 2 ^ 32
    → length pixels ≡ height * (width * 4)
    → length ref ≡ height * (width * 4)
    → (compute_frame_damage width height pixels (some ref) true).full_frame ≡ false
    → let d = compute_frame_damage width height pixels (some ref) true in
      Tracks (width * 4) pixels ref height d.ranges
      × (copy_ranges (width * 4) d.ranges pixels ref ≡ pixels)
unfolding compute_frame_damage
compute_frame_damage-Tracks width height pixels ref w narrow small e f partial =
    let stride : u32 (width * 4) ≡ width * 4 = omega arith in
    let whole = rw stride at partial in
    let t : Tracks (width * 4) pixels ref height
        (scan_rows (width * 4) pixels ref height 0 [] none).ranges =
      scan_rows-Tracks (width * 4) pixels ref height 0 height [] none (omega arith)
        (record { exact = λ y p. absurd (omega arith); inside = tt; few = omega arith }) whole in
    rw stride (t, copy_ranges-Tracks (width * 4) pixels ref height _ (omega arith) e f small t)
