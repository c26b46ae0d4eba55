-- ===== src/Codec/Writer/Flush.antt =====
-- kernel/trigger6_codec.c: the end of the scan, `t6_jpeg_flush_bits`, and what a decoder then reads.
use Prim.Native.Nat.{bit_or}
use native.Mathlib.Nat.{pow-suc}
use mathlib.Core.Path.{subst}
use mathlib.Core.List.{append_assoc, append-nil}
use jcd543_mct_t6_linux_driv.Prelude.{
  ℕ, zero, suc, ◌+◌, ◌-◌, ◌*◌, ◌/◌, ◌%◌, ◌^◌, ◌<◌, ◌≡◌, refl, sym, ap, ◌∙◌, Bool, true, List, [],
  ◌∷◌, ◌++◌, arith, inl, inr, ◌==◌, length, take, drop, replicate, Bool-cases, ==_iff, ◌≢◌, ==_iff,
  ◌≢◌,
}
use jcd543_mct_t6_linux_driv.Prelude.Words.{u8, ◌<<<◌, ◌>>>◌}
use jcd543_mct_t6_linux_driv.Codec.Writer.{JpegCtx, put_scan_byte, flush_bits, pad_ones}
use jcd543_mct_t6_linux_driv.Codec.Writer.Window.{window_ones, two_pow_pos}
use jcd543_mct_t6_linux_driv.Codec.Writer.Bitstring.{
  bits, bits_of, stuff, unstuff, unstuff-stuff, bits-field, bits_of-append,
}
use jcd543_mct_t6_linux_driv.Codec.Writer.Stream.{
  IsScan, HasRoom, HasRoom-Appends, Appends, written-stuff, put_scan_byte-Appends,
}

replicate-snoc : (n x : ℕ) → replicate n x ++ x ∷ [] ≡ x ∷ replicate n x
replicate-snoc zero x = refl
replicate-snoc (suc n) x = ap (λ (t : List ℕ). x ∷ t) (replicate-snoc n x)

bits-ones : (n : ℕ) → bits n (2 ^ n - 1) ≡ replicate n 1
bits-ones zero = refl
bits-ones (suc n) =
    let half : (2 ^ suc n - 1) / 2 ≡ 2 ^ n - 1 = omega (arith, pow-suc 2 n, two_pow_pos n) in
    let odd : (2 ^ suc n - 1) % 2 ≡ 1 = omega (arith, pow-suc 2 n, two_pow_pos n) in
    rw (half, odd, bits-ones n) (replicate-snoc n 1)

drop-length-append : (xs ys : List ℕ) → drop (length xs) (xs ++ ys) ≡ ys
drop-length-append [] ys = refl
drop-length-append (x ∷ xs) ys = drop-length-append xs ys

-- The bits that a decoder reads from the scan behind `n` bytes of headers.
abbrev pub decoded : ℕ → JpegCtx → List ℕ
decoded n c = bits_of (unstuff (drop n (take c.pos c.dst)))

decoded-stuff :
    (start bytes : List ℕ) (c : JpegCtx)
    → take c.pos c.dst ≡ start ++ stuff bytes
    → decoded (length start) c ≡ bits_of bytes
decoded-stuff start bytes c h =
    ap (λ (t : List ℕ). bits_of (unstuff (drop (length start) t))) h
    ∙ ap (λ (t : List ℕ). bits_of (unstuff t)) (drop-length-append start (stuff bytes))
    ∙ ap bits_of (unstuff-stuff bytes)

-- The bits of the last byte: those that were pending, and ones.
last_byte :
    (n rem : ℕ)
    → n ≢ 0
    → n < 8
    → 2 ^ (8 - n) - 1 < 2 ^ (8 - n)
    → bits 8 (rem * 2 ^ (8 - n) + (2 ^ (8 - n) - 1)) ≡ bits n rem ++ replicate ((8 - n) % 8) 1
last_byte n rem hn hb small =
    let e : n + (8 - n) ≡ 8 = omega arith in
    let p : (8 - n) % 8 ≡ 8 - n = omega arith in
    rw (p, ← bits-ones (8 - n), ← bits-field n (8 - n) rem (2 ^ (8 - n) - 1) small, e)

-- The destination when the scan has ended: the bits of its whole bytes are those that were given, filled up with ones.
pub record IsEnded (start bs : List ℕ) (pad : ℕ) (c : JpegCtx) : Type 0 where
  pub bytes : List ℕ
  pub room : HasRoom c
  pub written : take c.pos c.dst ≡ start ++ stuff bytes
  pub given : bits_of bytes ≡ bs ++ replicate pad 1

flush_some :
    (start bs : List ℕ) (c c' : JpegCtx)
    → c.bitcnt < 8
    → c.bitcnt ≢ 0
    → IsScan start bs c
    → put_scan_byte (u8 ((pad_ones c).bitbuf >>> 24)) (pad_ones c) ≡ (c', true)
    → IsEnded start bs ((8 - c.bitcnt) % 8) c'
flush_some start bs c c' hb n s wrote =
    let v : ℕ = s.rem * 2 ^ (8 - c.bitcnt) + (2 ^ (8 - c.bitcnt) - 1) in
    let (word, small) = window_ones c.bitcnt s.rem hb s.pending in
    let value : u8 ((pad_ones c).bitbuf >>> 24) ≡ v =
      unfold pad_ones in
      (ap (λ (t : ℕ). u8 (bit_or t ((1 <<< (32 - c.bitcnt)) - 1) >>> 24)) s.buffered ∙ word) in
    let room : HasRoom (pad_ones c) = unfold pad_ones in s.room in
    let a : Appends (stuff (u8 ((pad_ones c).bitbuf >>> 24) ∷ [])) (pad_ones c) c' =
      put_scan_byte-Appends (u8 ((pad_ones c).bitbuf >>> 24)) (pad_ones c) c' room wrote in
    record {
      bytes = s.bytes ++ v ∷ [];
      room = HasRoom-Appends room a;
      written =
          written-stuff start s.bytes v (pad_ones c) c' (unfold pad_ones in s.written) value a;
      given =
          bits_of-append s.bytes (v ∷ [])
          ∙ ap (λ (t : List ℕ). bits_of s.bytes ++ t)
              (append-nil (bits 8 v) ∙ last_byte c.bitcnt s.rem n hb small)
          ∙ sym (
              append_assoc (bits_of s.bytes) (bits c.bitcnt s.rem)
                (replicate ((8 - c.bitcnt) % 8) 1))
          ∙ ap (λ (t : List ℕ). t ++ replicate ((8 - c.bitcnt) % 8) 1) s.given;
    }

flush_none :
    (start bs : List ℕ) (c : JpegCtx)
    → c.bitcnt ≡ 0
    → IsScan start bs c
    → IsEnded start bs ((8 - c.bitcnt) % 8) c
flush_none start bs c z s =
    let p : (8 - c.bitcnt) % 8 ≡ 0 = omega arith in
    record {
      bytes = s.bytes;
      room = s.room;
      written = s.written;
      given =
          sym (append-nil (bits_of s.bytes))
          ∙ ap (λ (t : ℕ). bits_of s.bytes ++ bits t s.rem) (sym z)
          ∙ s.given
          ∙ sym (append-nil bs)
          ∙ ap (λ (t : ℕ). bs ++ replicate t 1) (sym p);
    }

pub flush_bits-IsEnded :
    (start bs : List ℕ) (c c' : JpegCtx)
    → c.bitcnt < 8
    → IsScan start bs c
    → flush_bits c ≡ (c', true)
    → IsEnded start bs ((8 - c.bitcnt) % 8) c'
unfolding flush_bits
flush_bits-IsEnded start bs c c' hb s h = elim (Bool-cases (c.bitcnt == 0)) [
  | inl none_left ↦
      (let e : ◌≡◌ {A = JpegCtx × Bool} (c, true) (c', true) = rw none_left at h in
        subst (IsEnded start bs ((8 - c.bitcnt) % 8)) (ap (λ (r : JpegCtx × Bool). r.0) e)
          (flush_none start bs c ((==_iff c.bitcnt 0).0 none_left) s))
  | inr some_left ↦ flush_some start bs c c' hb (ground arith) s (rw some_left at h)
]

-- From a scan with fewer than eight bits pending, what a successful `t6_jpeg_flush_bits` leaves behind the headers is read back by a decoder, which drops the
-- stuffed zeros, as exactly the bits that were given to the scan, filled up with ones to a whole byte.
pub flush_bits-decoded :
    (start bs : List ℕ) (c c' : JpegCtx)
    → c.bitcnt < 8
    → IsScan start bs c
    → flush_bits c ≡ (c', true)
    → decoded (length start) c' ≡ bs ++ replicate ((8 - c.bitcnt) % 8) 1
flush_bits-decoded start bs c c' hb s h =
    let ended = flush_bits-IsEnded start bs c c' hb s h in
    decoded-stuff start ended.bytes c' ended.written ∙ ended.given
