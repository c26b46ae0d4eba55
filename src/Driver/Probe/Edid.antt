-- ===== src/Driver/Probe/Edid.antt =====
-- kernel/trigger6_drv.c: an EDID block whose extension count is cleared stays valid.
use jcd543_mct_t6_linux_driv.Prelude.{
  ℕ, zero, suc, ◌+◌, ◌%◌, ◌≤◌, ◌<◌, ◌≡◌, refl, sym, ap, ◌∙◌, true, arith, List, [], ◌∷◌, take, set,
  get_or, length, length-set,
}
use jcd543_mct_t6_linux_driv.Prelude.Words.{u8}
use jcd543_mct_t6_linux_driv.Driver.Probe.{checksum, edid_base_block_valid, hide_extensions}

abbrev sum : List ℕ → ℕ
sum [] = 0
sum (x ∷ xs) = x + sum xs

checksum_lem : (xs : List ℕ) (acc : ℕ) → acc < 256 → checksum xs acc ≡ (acc + sum xs) % 256
unfolding checksum
checksum_lem [] acc h = omega arith
checksum_lem (x ∷ xs) acc h = checksum_lem xs (u8 (acc + x)) (omega arith) ∙ omega arith

sum-set : (xs : List ℕ) (i v : ℕ) → i < length xs → sum (set xs i v) + get_or xs i 0 ≡ sum xs + v
sum-set [] i v h = absurd (omega arith)
sum-set (x ∷ xs) zero v h = omega arith
sum-set (x ∷ xs) (suc i) v h = omega (arith, sum-set xs i v (omega arith))

get_or-set_other : (xs : List ℕ) (i j v : ℕ) → j < i → get_or (set xs i v) j 0 ≡ get_or xs j 0
get_or-set_other [] i j v h = refl
get_or-set_other (x ∷ xs) zero j v h = absurd (omega arith)
get_or-set_other (x ∷ xs) (suc i) zero v h = refl
get_or-set_other (x ∷ xs) (suc i) (suc j) v h = get_or-set_other xs i j v (omega arith)

get_or-set : (xs : List ℕ) (i v : ℕ) → i < length xs → get_or (set xs i v) i 0 ≡ v
get_or-set [] i v h = absurd (omega arith)
get_or-set (x ∷ xs) zero v h = refl
get_or-set (x ∷ xs) (suc i) v h = get_or-set xs i v (omega arith)

take-set_behind : (xs : List ℕ) (n i v : ℕ) → n ≤ i → take n (set xs i v) ≡ take n xs
take-set_behind xs zero i v h = refl
take-set_behind [] (suc n) i v h = refl
take-set_behind (x ∷ xs) (suc n) zero v h = absurd (omega arith)
take-set_behind (x ∷ xs) (suc n) (suc i) v h =
    ap (λ (t : List ℕ). x ∷ t) (take-set_behind xs n i v (omega arith))

take_whole : (xs : List ℕ) (n : ℕ) → length xs ≡ n → take n xs ≡ xs
take_whole [] zero h = refl
take_whole [] (suc n) h = refl
take_whole (x ∷ xs) zero h = absurd (omega arith)
take_whole (x ∷ xs) (suc n) h = ap (λ (t : List ℕ). x ∷ t) (take_whole xs n (omega arith))

-- Clearing the extension count of a valid block of 128 bytes leaves a valid block of 128 bytes with no extensions.
pub hide_extensions_valid :
    (edid : List ℕ)
    → length edid ≡ 128
    → edid_base_block_valid edid ≡ true
    → (edid_base_block_valid (hide_extensions edid) ≡ true)
      × (length (hide_extensions edid) ≡ 128)
      × (get_or (hide_extensions edid) 126 0 ≡ 0)
unfolding hide_extensions edid_base_block_valid
hide_extensions_valid edid size valid =
    let v : ℕ = u8 (get_or edid 127 0 + get_or edid 126 0) in
    let one : List ℕ = set edid 127 v in
    let two : List ℕ = set one 126 0 in
    let size_one : length one ≡ 128 = length-set edid 127 v ∙ size in
    let size_two : length two ≡ 128 = length-set one 126 0 ∙ size_one in
    let first : sum one + get_or edid 127 0 ≡ sum edid + v = sum-set edid 127 v (omega arith) in
    let second : sum two + get_or one 126 0 ≡ sum one + 0 = sum-set one 126 0 (omega arith) in
    let other : get_or one 126 0 ≡ get_or edid 126 0 =
      get_or-set_other edid 127 126 v (omega arith) in
    let old : checksum (take 128 edid) 0 ≡ sum edid % 256 =
      ap (λ (t : List ℕ). checksum t 0) (take_whole edid 128 size)
      ∙ checksum_lem edid 0 (omega arith)
      ∙ omega arith in
    let new : checksum (take 128 two) 0 ≡ sum two % 256 =
      ap (λ (t : List ℕ). checksum t 0) (take_whole two 128 size_two)
      ∙ checksum_lem two 0 (omega arith)
      ∙ omega arith in
    let same : sum two % 256 ≡ sum edid % 256 = omega arith in
    let start : take 8 two ≡ take 8 edid =
      take-set_behind one 8 126 0 (omega arith) ∙ take-set_behind edid 8 127 v (omega arith) in
    let sums : checksum (take 128 two) 0 ≡ checksum (take 128 edid) 0 = new ∙ same ∙ sym old in
    (rw (start, sums) valid, size_two, get_or-set one 126 0 (omega arith))
