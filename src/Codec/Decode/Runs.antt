-- ===== src/Codec/Decode/Runs.antt =====
-- kernel/trigger6_codec.c: the AC coefficients, run by run, are read back.
use mathlib.Core.List.{append_assoc, append-nil}
use Prim.Native.Nat.{bit_or}
use jcd543_mct_t6_linux_driv.Prelude.{
  ℕ, zero, suc, ◌+◌, ◌-◌, ◌*◌, ◌^◌, ◌≤◌, ◌<◌, ◌≡◌, refl, sym, ap, false, List, [], ◌∷◌, ◌++◌, arith,
  leb, ◌==◌, get_or, replicate, if◌then◌else◌, Bool-cases, inl, inr, leb→le,
}
use jcd543_mct_t6_linux_driv.Prelude.Words.{◌<<<◌, bit_or-field}
use jcd543_mct_t6_linux_driv.Prelude.Int.{ℤ, pos, magnitude, is_zero}
use jcd543_mct_t6_linux_driv.Codec.Tables.{zigzag}
use jcd543_mct_t6_linux_driv.Codec.Huffman.{HuffTable}
use jcd543_mct_t6_linux_driv.Codec.Quant.{at}
use jcd543_mct_t6_linux_driv.Codec.Writer.{Writer, ◌>>◌, succeed, put_bits}
use jcd543_mct_t6_linux_driv.Codec.Block.{value_bits, put_symbol, put_value, put_runs, put_ac}
use jcd543_mct_t6_linux_driv.Codec.Block.Extend.{value_bits-size, value_bits-nonzero}
use jcd543_mct_t6_linux_driv.Codec.Decode.{
  Reader, Sends, succeed-Sends, seq-Sends, then-Sends, Sends-cast, then_give-Sends, assoc-Sends,
}
use jcd543_mct_t6_linux_driv.Codec.Decode.Symbols.{
  read_symbol, CodesAc, put_symbol-ac, put_symbol-zeros, put_symbol-end,
}
use jcd543_mct_t6_linux_driv.Codec.Decode.Block.{
  read_run, read_ac, zigzag_from, value-Sends, read_ac-suc, read_run-value, read_run-zeros,
  sixteen_zeros, zero_behind,
}

-- Every AC coefficient of a block has at most 10 bits, the most that the tables have codes for.
pub record IsCodable (coeffs : List ℤ) : Type 0 where
  pub small : (i : ℕ) → 0 < i → i < 64 → magnitude (at coeffs (get_or zigzag i 0)) < 2 ^ 10

module _ {t : HuffTable} {counts vals : List ℕ} (codes : CodesAc t counts vals) where
  -- What is coded behind a run of zeros is read back with the run before it, on any fuel that is enough.
  abbrev ReadsBehind : ℕ → List ℤ → (ℕ → Writer) → Type 0
  ReadsBehind m vs next =
      (fuel run : ℕ)
      → run < 16
      → run + m ≤ fuel
      → Sends (next run) (read_ac (read_symbol counts vals) fuel (run + m))
          (replicate run (pos 0) ++ vs)

  put_runs-Sends :
      (m : ℕ) (vs : List ℤ) (next : ℕ → Writer)
      → 0 < m
      → ReadsBehind m vs next
      → (rounds fuel run : ℕ) → run ≤ rounds
      → run + m ≤ fuel
      → Sends
          (put_runs t rounds run next)
          (read_ac (read_symbol counts vals) fuel (run + m))
          (replicate run (pos 0) ++ vs)
  unfolding put_runs
  put_runs-Sends m vs next low behind zero fuel run hr hf = behind fuel run (omega arith) hf
  put_runs-Sends m vs next low behind (suc rounds) fuel run hr hf = elim (Bool-cases (leb 16 run)) [
    | inr short ↦ rw short (behind fuel run (ground arith) hf)
    | inl long ↦
        (let symbol : Reader ℕ = read_symbol counts vals in
          let h : 16 ≤ run = leb→le 16 run long in
          let less : run - 16 + m ≡ run + m - 16 = omega arith in
          let rest =
            put_runs-Sends m vs next low behind rounds (fuel - 1) (run - 16) (omega arith)
              (omega arith) in
          rw long (
            Sends-cast (sym (read_ac-suc symbol fuel (run + m) (omega arith) hf))
              (sixteen_zeros run vs h)
              (seq-Sends (read_run (read_ac symbol (fuel - 1)) (run + m)) (put_symbol-zeros codes) (
                Sends-cast
                  (sym (read_run-zeros (read_ac symbol (fuel - 1)) (run + m) (omega arith))) refl
                  (then_give-Sends (λ ys. replicate 16 (pos 0) ++ ys) (rw less at rest))))))
  ]

  -- A value of at most 10 bits that is not zero, behind less than 16 zeros, and what comes behind it.
  put_run-Sends :
      (v : ℤ) (run n fuel : ℕ) (vs : List ℤ) (next : Writer)
      → is_zero v ≡ false
      → magnitude v < 2 ^ 10
      → run < 16
      → run + suc n ≤ fuel
      → Sends next (read_ac (read_symbol counts vals) (fuel - 1) n) vs
      → Sends
          (put_value t (bit_or (run <<< 4) (value_bits v).0) (value_bits v) >> next)
          (read_ac (read_symbol counts vals) fuel (run + suc n))
          (replicate run (pos 0) ++ v ∷ vs)
  unfolding put_value
  put_run-Sends v run n fuel vs next nonzero small hr hf behind =
      let symbol : Reader ℕ = read_symbol counts vals in
      let size : ℕ = (value_bits v).0 in
      let low : 0 < size = value_bits-nonzero v nonzero (omega (arith, small)) in
      let high : size ≤ 10 = value_bits-size 10 v small (omega arith) in
      let code : bit_or (run <<< 4) size ≡ run * 16 + size =
        bit_or-field 4 run size (omega (arith, high)) in
      let left : run + suc n - run - 1 ≡ n = omega arith in
      let rest = read_ac symbol (fuel - 1) in
      let tail : Sends next (rest (run + suc n - run - 1)) vs = rw left behind in
      rw code (
        assoc-Sends (put_symbol t (run * 16 + size)) (put_bits (value_bits v).1 size) next (
          Sends-cast (sym (read_ac-suc symbol fuel (run + suc n) (omega arith) hf))
            (append_assoc (replicate run (pos 0)) (v ∷ []) vs)
            (seq-Sends (read_run rest (run + suc n))
              (put_symbol-ac run size codes hr low (omega (arith, high)))
              (Sends-cast
                (sym (
                  read_run-value rest (run + suc n) run size (omega arith) low
                    (omega (arith, high))))
                refl
                (seq-Sends _ (value-Sends v (omega (arith, small)))
                  (then_give-Sends (λ ys. (replicate run (pos 0) ++ v ∷ []) ++ ys) tail))))))

  -- The end of a block.
  put_end-Sends :
      (run fuel : ℕ)
      → run ≤ fuel
      → Sends
          (if run == 0 then succeed else put_symbol t 0x00)
          (read_ac (read_symbol counts vals) fuel run)
          (replicate run (pos 0))
  put_end-Sends zero fuel h = unfold read_ac in succeed-Sends []
  put_end-Sends (suc run) fuel h =
      let more : (suc run == 0) ≡ false = ground arith in
      rw more (
        Sends-cast (sym (read_ac-suc (read_symbol counts vals) fuel (suc run) (omega arith) h)) refl
          (then-Sends (read_run (read_ac (read_symbol counts vals) (fuel - 1)) (suc run))
            (put_symbol-end codes) (unfold read_run in refl)))

  -- The AC coefficients from index `i` on, behind a run of zeros, are read back with the zeros.
  pub put_ac-Sends :
      (coeffs : List ℤ) (n i run fuel : ℕ)
      → IsCodable coeffs
      → 0 < i
      → i + n ≤ 64
      → run + n ≤ fuel
      → Sends
          (put_ac t coeffs n i run)
          (read_ac (read_symbol counts vals) fuel (run + n))
          (replicate run (pos 0) ++ zigzag_from coeffs n i)
  unfolding put_ac
  put_ac-Sends coeffs zero i run fuel c low hi hf =
      let e : run + 0 ≡ run = omega arith in
      rw (e, append-nil) (put_end-Sends run fuel (omega arith))
  put_ac-Sends coeffs (suc n) i run fuel c low hi hf =
      let v : ℤ = at coeffs (get_or zigzag i 0) in
      let more : run + 1 + n ≡ run + suc n = omega arith in
      let none_before : 0 + n ≡ n = omega arith in
      elim (Bool-cases (is_zero v)) [
        | inl zero_here ↦ rw zero_here (
            Sends-cast (ap (read_ac (read_symbol counts vals) fuel) more)
              (zero_behind run v (zigzag_from coeffs n (i + 1)) zero_here)
              (put_ac-Sends coeffs n (i + 1) (run + 1) fuel c (omega arith) (omega arith)
                (omega arith)))
        | inr value_here ↦ rw value_here (
            put_runs-Sends (suc n) (v ∷ zigzag_from coeffs n (i + 1)) _ (omega arith)
              (λ fuel run hr hf.
                put_run-Sends v run n fuel (zigzag_from coeffs n (i + 1))
                  (put_ac t coeffs n (i + 1) 0) value_here (c.small i low (omega arith)) hr hf
                  (Sends-cast (ap (read_ac (read_symbol counts vals) (fuel - 1)) none_before) refl (
                    put_ac-Sends coeffs n (i + 1) 0 (fuel - 1) c (omega arith) (omega arith)
                      (omega arith))))
              run fuel run (omega arith) hf)
      ]
