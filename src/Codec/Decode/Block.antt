-- ===== src/Codec/Decode/Block.antt =====
-- kernel/trigger6_codec.c: a decoder of one block reads back the coefficients that were coded, in zigzag order.
use mathlib.Core.List.{append_assoc}
use jcd543_mct_t6_linux_driv.Prelude.{
  ℕ, zero, suc, ◌+◌, ◌-◌, ◌*◌, ◌/◌, ◌%◌, ◌^◌, ◌≤◌, ◌<◌, ◌≡◌, refl, sym, ap, ◌∙◌, true, false, List,
  [], ◌∷◌, ◌++◌, arith, none, ltb, ◌==◌, get_or, replicate, if◌then◌else◌,
}
use jcd543_mct_t6_linux_driv.Prelude.Int.{ℤ, pos, negsuc, magnitude, is_zero, ◌+ℤ◌}
use jcd543_mct_t6_linux_driv.Codec.Tables.{zigzag}
use jcd543_mct_t6_linux_driv.Codec.Quant.{at}
use jcd543_mct_t6_linux_driv.Codec.Writer.{put_bits}
use jcd543_mct_t6_linux_driv.Codec.Block.{value_bits}
use jcd543_mct_t6_linux_driv.Codec.Block.Extend.{extend, extend-value_bits}
use jcd543_mct_t6_linux_driv.Codec.Decode.{
  Reader, give, ◌and_then◌, take_bits, Sends, put_bits-Sends, Sends-cast, then_give-Sends,
}

-- RECEIVE and EXTEND of the JPEG standard: the value in the next `size` bits.
abbrev pub receive : ℕ → Reader ℤ
receive size = take_bits size and_then λ low. give (extend low size)

abbrev pub prepend : List ℤ → Reader (List ℤ) → Reader (List ℤ)
prepend xs p = p and_then λ ys. give (xs ++ ys)

-- What a symbol of the AC table says of the `n` coefficients that are left: that they are zero, that 16 of them are,
-- or that some zeros come before a value. `rest` reads those behind; a block that would be too long is refused.
unfoldable pub read_run : (ℕ → Reader (List ℤ)) → ℕ → ℕ → Reader (List ℤ)
read_run rest n symbol =
    let run = symbol / 16 in
    if symbol == 0
    then give (replicate n (pos 0))
    else if symbol == 0xf0
    then (if ltb n 16 then (λ bs. none) else prepend (replicate 16 (pos 0)) (rest (n - 16)))
    else if ltb run n
    then (receive (symbol % 16) and_then λ v.
        prepend (replicate run (pos 0) ++ v ∷ []) (rest (n - run - 1)))
    else λ bs. none

-- The `n` AC coefficients that are left, on fuel.
unfoldable pub read_ac : Reader ℕ → ℕ → ℕ → Reader (List ℤ)
unfolding read_run
read_ac symbol fuel zero = give []
read_ac symbol zero (suc n) = λ bs. none
read_ac symbol (suc fuel) (suc n) = symbol and_then read_run (read_ac symbol fuel) (suc n)

-- The decoder of a block behind one whose DC coefficient is `prev_dc`: its 64 coefficients in zigzag order.
unfoldable pub read_block : Reader ℕ → Reader ℕ → ℤ → Reader (List ℤ)
unfolding read_ac
read_block dc_symbol ac_symbol prev_dc = dc_symbol and_then receive and_then λ diff.
    prepend ((prev_dc +ℤ diff) ∷ []) (read_ac ac_symbol 63 63)

-- The `n` coefficients from index `i` of the zigzag order on.
abbrev pub zigzag_from : List ℤ → ℕ → ℕ → List ℤ
zigzag_from coeffs zero i = []
zigzag_from coeffs (suc n) i = at coeffs (get_or zigzag i 0) ∷ zigzag_from coeffs n (i + 1)

pub value-Sends :
    (v : ℤ)
    → magnitude v < 2 ^ 15
    → Sends (put_bits (value_bits v).1 (value_bits v).0) (receive (value_bits v).0) v
value-Sends v h =
    let (small, fits, back) = extend-value_bits v h in
    Sends-cast refl back (
      then_give-Sends (λ low. extend low (value_bits v).0)
        (put_bits-Sends (value_bits v).1 (value_bits v).0 (omega (arith, small)) fits))

pub read_ac-suc :
    (symbol : Reader ℕ) (f n : ℕ)
    → 0 < n
    → n ≤ f
    → read_ac symbol f n ≡ symbol and_then read_run (read_ac symbol (f - 1)) n
unfolding read_ac
read_ac-suc symbol f zero low h = absurd (omega arith)
read_ac-suc symbol zero (suc n) low h = absurd (omega arith)
read_ac-suc symbol (suc f) (suc n) low h = let e : suc f - 1 ≡ f = omega arith in rw e

pub read_run-value :
    (rest : ℕ → Reader (List ℤ)) (n run size : ℕ)
    → run < n
    → 0 < size
    → size < 16
    → read_run rest n (run * 16 + size)
      ≡ (receive size and_then λ v. prepend (replicate run (pos 0) ++ v ∷ []) (rest (n - run - 1)))
unfolding read_run
read_run-value rest n run size h low high =
    let a : (run * 16 + size == 0) ≡ false = ground arith in
    let b : (run * 16 + size == 0xf0) ≡ false = ground arith in
    let c : (run * 16 + size) / 16 ≡ run = omega arith in
    let d : (run * 16 + size) % 16 ≡ size = omega arith in
    let l : ltb run n ≡ true = ground arith in rw (a, b, c, d, l)

pub read_run-zeros :
    (rest : ℕ → Reader (List ℤ)) (n : ℕ)
    → 16 ≤ n
    → read_run rest n 0xf0 ≡ prepend (replicate 16 (pos 0)) (rest (n - 16))
unfolding read_run
read_run-zeros rest n h = let l : ltb n 16 ≡ false = ground arith in rw l

replicate-append {ℓ} :
    {A : Type ℓ} (m n : ℕ) (x : A) → replicate (m + n) x ≡ replicate m x ++ replicate n x
replicate-append zero n x = let e : 0 + n ≡ n = omega arith in rw e
replicate-append (suc m) n x =
    let e : suc m + n ≡ suc (m + n) = omega arith in rw e (ap (λ t. x ∷ t) (replicate-append m n x))

-- Sixteen zeros of a longer run.
pub sixteen_zeros :
    (run : ℕ) (vs : List ℤ)
    → 16 ≤ run
    → replicate 16 (pos 0) ++ (replicate (run - 16) (pos 0) ++ vs) ≡ replicate run (pos 0) ++ vs
sixteen_zeros run vs h =
    let e : 16 + (run - 16) ≡ run = omega arith in
    sym (append_assoc (replicate 16 (pos 0)) (replicate (run - 16) (pos 0)) vs)
    ∙ ap (λ (zs : List ℤ). zs ++ vs) (sym (replicate-append 16 (run - 16) (pos 0)))
    ∙ ap (λ (n : ℕ). replicate n (pos 0) ++ vs) e

pub zero_behind :
    (run : ℕ) (v : ℤ) (vs : List ℤ)
    → is_zero v ≡ true
    → replicate (run + 1) (pos 0) ++ vs ≡ replicate run (pos 0) ++ v ∷ vs
zero_behind run (pos zero) vs h =
    ap (λ (zs : List ℤ). zs ++ vs) (replicate-append run 1 (pos 0))
    ∙ append_assoc (replicate run (pos 0)) (pos 0 ∷ []) vs
zero_behind run (pos (suc n)) vs h = absurd (ground arith)
zero_behind run (negsuc n) vs h = absurd (ground arith)
