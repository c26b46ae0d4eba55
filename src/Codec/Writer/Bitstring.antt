-- ===== src/Codec/Writer/Bitstring.antt =====
-- The bit strings that the JPEG writer of kernel/trigger6_codec.c stands for, and byte stuffing.
use native.Mathlib.Nat.{pow-suc}
use mathlib.Core.List.{append_assoc, append-nil}
use jcd543_mct_t6_linux_driv.Prelude.{
  ℕ, zero, suc, ◌+◌, ◌*◌, ◌/◌, ◌%◌, ◌^◌, ◌<◌, ◌≡◌, refl, ap, List, [], ◌∷◌, ◌++◌, arith,
  if◌then◌else◌, ◌==◌,
}

-- The low `n` binary digits of a number, the highest first.
abbrev pub bits : ℕ → ℕ → List ℕ
bits zero x = []
bits (suc n) x = bits n (x / 2) ++ (x % 2) ∷ []

-- The digits of a list of bytes.
abbrev pub bits_of : List ℕ → List ℕ
bits_of [] = []
bits_of (b ∷ bs) = bits 8 b ++ bits_of bs

-- The scan as a decoder reads it: a 0x00 after 0xff is dropped.
abbrev pub stuff : List ℕ → List ℕ
stuff [] = []
stuff (b ∷ bs) = if b == 0xff then 0xff ∷ 0 ∷ stuff bs else b ∷ stuff bs

pub unstuff : List ℕ → List ℕ
unstuff [] = []
unstuff (b ∷ []) = b ∷ []
unstuff (b ∷ c ∷ bs) =
    let rest = unstuff bs in let next = unstuff (c ∷ bs) in if b == 0xff then b ∷ rest else b ∷ next

pub bits-field : (a b x y : ℕ) → y < 2 ^ b → bits (a + b) (x * 2 ^ b + y) ≡ bits a x ++ bits b y
bits-field a zero x y h =
    let e : a + 0 ≡ a = omega arith in
    let f : x * 2 ^ 0 + y ≡ x = omega arith in rw (e, f, append-nil)
bits-field a (suc b) x y h =
    let e : a + suc b ≡ suc (a + b) = omega arith in
    let d : x * 2 ^ suc b ≡ 2 * (x * 2 ^ b) = omega (arith, ap (λ (t : ℕ). x * t) (pow-suc 2 b)) in
    let half : (x * 2 ^ suc b + y) / 2 ≡ x * 2 ^ b + y / 2 = omega arith in
    let odd : (x * 2 ^ suc b + y) % 2 ≡ y % 2 = omega arith in
    rw (e, half, odd, bits-field a b x (y / 2) (omega (arith, pow-suc 2 b)), append_assoc)

pub bits_of-append : (xs ys : List ℕ) → bits_of (xs ++ ys) ≡ bits_of xs ++ bits_of ys
bits_of-append [] ys = refl
bits_of-append (x ∷ xs) ys = rw (bits_of-append xs ys, append_assoc (bits 8 x))

pub stuff-append : (xs ys : List ℕ) → stuff (xs ++ ys) ≡ stuff xs ++ stuff ys
stuff-append [] ys = refl
stuff-append (x ∷ xs) ys = ground (arith, stuff-append xs ys)

-- Byte stuffing loses nothing.
pub unstuff-stuff : (bs : List ℕ) → unstuff (stuff bs) ≡ bs
unfolding unstuff
unstuff-stuff [] = refl
unstuff-stuff (b ∷ []) = ground arith
unstuff-stuff (b ∷ c ∷ bs) = ground (arith, unstuff-stuff bs, unstuff-stuff (c ∷ bs))
