-- ===== src/Codec/Decode.antt =====
-- A reader of the scan that kernel/trigger6_codec.c writes: what a writer sends, and a reader gets back.
pub mod Symbols
pub mod Block
pub mod Runs
pub mod Coefficients
pub mod Scan
pub mod Header
pub mod File
pub mod Call
use mathlib.Core.List.{append_assoc, append-nil}
use mathlib.Core.Path.{subst}
use native.Mathlib.Nat.{pow-suc}
use jcd543_mct_t6_linux_driv.Prelude.{
  ℕ, zero, suc, ◌+◌, ◌*◌, ◌/◌, ◌%◌, ◌^◌, ◌≤◌, ◌<◌, ◌≡◌, refl, sym, ap, ◌∙◌, Bool, true, false, List,
  [], ◌∷◌, ◌++◌, arith, Option, none, some, if◌then◌else◌,
}
use jcd543_mct_t6_linux_driv.Codec.Writer.{JpegCtx, Writer, ◌>>◌, succeed, put_bits}
use jcd543_mct_t6_linux_driv.Codec.Writer.Bitstring.{bits}
use jcd543_mct_t6_linux_driv.Codec.Writer.Stream.{IsScan, >>-true, put_bits-IsScan}

-- A reader takes what it needs off the front of the bits that are left.
abbrev pub Reader {ℓ} : Type ℓ → Type ℓ
Reader A = List ℕ → Option (A × List ℕ)

abbrev pub give {ℓ} : {A : Type ℓ} → A → Reader A
give a bs = some (a, bs)

abbrev resume {ℓ k} :
    {A : Type ℓ} {B : Type k} → (A → Reader B) → Option (A × List ℕ) → Option (B × List ℕ)
resume q none = none
resume q (some (a, rest)) = q a rest

infixl 5 ◌and_then◌
abbrev pub ◌and_then◌ {ℓ k} : {A : Type ℓ} {B : Type k} → Reader A → (A → Reader B) → Reader B
◌and_then◌ p q bs = resume q (p bs)

pub and_then_lem {ℓ k} :
    {A : Type ℓ} {B : Type k} (p : Reader A) (q : A → Reader B) {bs rest : List ℕ} {a : A}
    → p bs ≡ some (a, rest)
    → (p and_then q) bs ≡ q a rest
and_then_lem p q h = ap (resume q) h

abbrev next_bit : ℕ → Reader ℕ
next_bit high [] = none
next_bit high (b ∷ bs) = some (2 * high + b, bs)

-- The number that the next `n` bits are, the highest first.
abbrev pub take_bits : ℕ → Reader ℕ
take_bits zero = give 0
take_bits (suc n) = take_bits n and_then next_bit

pub take_bits-bits :
    (n x : ℕ) (rest : List ℕ) → x < 2 ^ n → take_bits n (bits n x ++ rest) ≡ some (x, rest)
take_bits-bits zero x rest h = let e : x ≡ 0 = omega arith in rw e
take_bits-bits (suc n) x rest h =
    let e : 2 * (x / 2) + x % 2 ≡ x = omega arith in
    rw (append_assoc (bits n (x / 2))) (
      and_then_lem (take_bits n) next_bit
        (take_bits-bits n (x / 2) (x % 2 ∷ rest) (omega (arith, pow-suc 2 n)))
      ∙ ap (λ (t : ℕ). some (t, rest)) e)

-- A writer which, when it succeeds, adds the bits `bs` to the scan.
pub record Emits (w : Writer) (bs : List ℕ) : Type 0 where
  pub apply :
      (start given : List ℕ) (c c' : JpegCtx)
      → IsScan start given c
      → c.bitcnt < 8
      → w c ≡ (c', true)
      → IsScan start (given ++ bs) c' × (c'.bitcnt < 8)

pub succeed-Emits : Emits succeed []
succeed-Emits = record {
  apply = λ start given c c' s h e.
      subst (λ (x : JpegCtx). IsScan start (given ++ []) x × (x.bitcnt < 8))
        (ap (λ (r : JpegCtx × Bool). r.0) e) (rw append-nil s, h);
}

pub put_bits-Emits :
    (code size : ℕ) → size ≤ 16 → code < 2 ^ size → Emits (put_bits code size) (bits size code)
put_bits-Emits code size h small = record {
  apply = λ start given c c' s n e. put_bits-IsScan start given code size c c' n h small s e;
}

pub seq-Emits :
    {v w : Writer} {xs ys : List ℕ} → Emits v xs → Emits w ys → Emits (v >> w) (xs ++ ys)
seq-Emits {v} {w} {xs} {ys} a b = record {
  apply = λ start given c c' s n e.
      (let (d, first, second) = >>-true v w c c' e in
        let (t, m) = a.apply start given c d s n first in
        rw (← append_assoc given) (b.apply start (given ++ xs) d c' t m second));
}

-- A writer which sends `a`: what it adds to the scan is read back as `a`, whatever comes behind it.
pub record Sends {ℓ} {A : Type ℓ} (w : Writer) (read : Reader A) (a : A) : Type ℓ where
  pub sent : List ℕ
  pub emits : Emits w sent
  pub reads : (rest : List ℕ) → read (sent ++ rest) ≡ some (a, rest)

pub succeed-Sends {ℓ} : {A : Type ℓ} (a : A) → Sends succeed (give a) a
succeed-Sends a = record { sent = []; emits = succeed-Emits; reads = λ rest. refl }

pub put_bits-Sends :
    (code size : ℕ) → size ≤ 16 → code < 2 ^ size → Sends (put_bits code size) (take_bits size) code
put_bits-Sends code size h small = record {
  sent = bits size code;
  emits = put_bits-Emits code size h small;
  reads = λ rest. take_bits-bits size code rest small;
}

-- One writer after the other, and one reader after the other.
pub seq-Sends {ℓ k} :
    {A : Type ℓ} {B : Type k} {v w : Writer} {p : Reader A} (q : A → Reader B) {a : A} {b : B}
    → Sends v p a
    → Sends w (q a) b
    → Sends (v >> w) (p and_then q) b
seq-Sends {p} q s t = record {
  sent = s.sent ++ t.sent;
  emits = seq-Emits s.emits t.emits;
  reads =
      λ rest. rw (append_assoc s.sent) (and_then_lem p q (s.reads (t.sent ++ rest)) ∙ t.reads rest);
}

-- A reader which takes nothing more.
pub then-Sends {ℓ k} :
    {A : Type ℓ} {B : Type k} {w : Writer} {p : Reader A} (q : A → Reader B) {a : A} {b : B}
    → Sends w p a
    → q a ≡ give b
    → Sends w (p and_then q) b
then-Sends {p} q s e = record {
  sent = s.sent;
  emits = s.emits;
  reads = λ rest. and_then_lem p q (s.reads rest) ∙ ap (λ r. r rest) e;
}

pub then_give-Sends {ℓ k} :
    {A : Type ℓ} {B : Type k} {w : Writer} {p : Reader A} {a : A} (f : A → B)
    → Sends w p a
    → Sends w (p and_then λ x. give (f x)) (f a)
then_give-Sends f s = then-Sends (λ x. give (f x)) s refl

pub Sends-cast {ℓ} :
    {A : Type ℓ} {w : Writer} {p q : Reader A} {a b : A} → p ≡ q → a ≡ b → Sends w p a → Sends w q b
Sends-cast e f s = rw (← e, ← f) s

>>-assoc : (u v w : Writer) (c : JpegCtx) → (u >> v >> w) c ≡ (u >> (v >> w)) c
>>-assoc u v w c = go (u c)
  where
    go :
        (r : JpegCtx × Bool)
        → (let (d, ok) = (let (e, ok) = r in if ok then v e else (e, false)) in
            if ok then w d else (d, false))
          ≡ (let (d, ok) = r in if ok then (v >> w) d else (d, false))
    go (d, true) = refl
    go (d, false) = refl

pub assoc-Sends {ℓ} :
    {A : Type ℓ} (u v w : Writer) {p : Reader A} {a : A}
    → Sends (u >> (v >> w)) p a
    → Sends (u >> v >> w) p a
assoc-Sends u v w s = record {
  sent = s.sent;
  emits = record {
    apply =
        λ start given c c' t n e. s.emits.apply start given c c' t n (sym (>>-assoc u v w c) ∙ e);
  };
  reads = s.reads;
}
