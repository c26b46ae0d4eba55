-- ===== src/Codec/Writer/Stream.antt =====
-- kernel/trigger6_codec.c: what the bit writer leaves in the destination, as a string of bits.
use Prim.Native.Nat.{bit_or}
use native.Mathlib.Nat.{div-add-mod', mod-lt}
use mathlib.Core.Path.{ap₂, subst}
use mathlib.Core.List.{append_assoc, append-nil}
use jcd543_mct_t6_linux_driv.Prelude.{
  ℕ, zero, suc, ◌+◌, ◌-◌, ◌*◌, ◌/◌, ◌%◌, ◌^◌, ◌≤◌, ◌<◌, ◌≡◌, refl, sym, ap, ◌∙◌, Bool, true, false,
  List, [], ◌∷◌, ◌++◌, arith, inl, inr, if◌then◌else◌, ◌==◌, leb, length, take, take-set,
  length-set, Bool-cases, leb→le,
}
use jcd543_mct_t6_linux_driv.Prelude.Words.{u8, u32, ◌<<<◌, ◌>>>◌}
use jcd543_mct_t6_linux_driv.Codec.Writer.{
  JpegCtx, put_byte, put_scan_byte, succeed, Writer, ◌>>◌, drain, add_code, put_bits,
}
use jcd543_mct_t6_linux_driv.Codec.Writer.Window.{top_byte, two_pow_pos, window_code}
use jcd543_mct_t6_linux_driv.Codec.Writer.Bitstring.{
  bits, bits_of, stuff, bits-field, bits_of-append, stuff-append,
}

-- `c'` is `c` with `out` appended to what is written, and nothing else changed.
pub record Appends (out : List ℕ) (c c' : JpegCtx) : Type 0 where
  pub written : take c'.pos c'.dst ≡ take c.pos c.dst ++ out
  pub same_size : c'.dst_size ≡ c.dst_size
  pub same_length : length c'.dst ≡ length c.dst
  pub same_bitbuf : c'.bitbuf ≡ c.bitbuf
  pub same_bitcnt : c'.bitcnt ≡ c.bitcnt

-- The buffer that the caller hands over holds `dst_size` bytes.
abbrev pub HasRoom : JpegCtx → Type 0
HasRoom c = c.dst_size ≤ length c.dst

pub put_byte-Appends :
    (v : ℕ) (c c' : JpegCtx) → HasRoom c → put_byte v c ≡ (c', true) → Appends (v ∷ []) c c'
unfolding put_byte
put_byte-Appends v c c' r h = ground (arith, take-set c.dst c.pos v, length-set c.dst c.pos v)

pub Appends-refl : (c : JpegCtx) → Appends [] c c
Appends-refl c = record {
  written = sym (append-nil _);
  same_size = refl;
  same_length = refl;
  same_bitbuf = refl;
  same_bitcnt = refl;
}

pub Appends-trans :
    {out more : List ℕ} {c d e : JpegCtx}
    → Appends out c d
    → Appends more d e
    → Appends (out ++ more) c e
Appends-trans {out} {more} {c} a b = record {
  written = rw (b.written, a.written, append_assoc);
  same_size = b.same_size ∙ a.same_size;
  same_length = b.same_length ∙ a.same_length;
  same_bitbuf = b.same_bitbuf ∙ a.same_bitbuf;
  same_bitcnt = b.same_bitcnt ∙ a.same_bitcnt;
}

pub HasRoom-Appends : {out : List ℕ} {c d : JpegCtx} → HasRoom c → Appends out c d → HasRoom d
HasRoom-Appends r a = omega (arith, a.same_size, a.same_length)

-- A sequence of writers succeeds only if both do.
pub >>-true :
    (p q : Writer) (c c' : JpegCtx)
    → (p >> q) c ≡ (c', true)
    → (d : JpegCtx) × (p c ≡ (d, true)) × (q d ≡ (c', true))
>>-true p q c c' = go (p c)
  where
    go :
        (r : JpegCtx × Bool)
        → (let (d, ok) = r in if ok then q d else (d, false)) ≡ (c', true)
        → (d : JpegCtx) × (r ≡ (d, true)) × (q d ≡ (c', true))
    go (d, true) h = (d, refl, h)
    go (d, false) h = absurd (cc (ap (λ (r : JpegCtx × Bool). r.1) h))

stuffing-Appends :
    (v : ℕ) (c c' : JpegCtx)
    → HasRoom c
    → (b : Bool) → (if b then put_byte 0x00 else succeed) c ≡ (c', true)
    → Appends (if b then 0 ∷ [] else []) c c'
stuffing-Appends v c c' r true h = put_byte-Appends 0 c c' r h
stuffing-Appends v c c' r false h = rw (← ap (λ (r : JpegCtx × Bool). r.0) h) (Appends-refl c)

stuff-singleton : (v : ℕ) → stuff (v ∷ []) ≡ (v ∷ []) ++ (if v == 0xff then 0 ∷ [] else [])
stuff-singleton v = ground arith

-- A scan byte goes out with its stuffing.
pub put_scan_byte-Appends :
    (v : ℕ) (c c' : JpegCtx)
    → HasRoom c
    → put_scan_byte v c ≡ (c', true)
    → Appends (stuff (v ∷ [])) c c'
unfolding put_scan_byte
put_scan_byte-Appends v c c' r h =
    let (d, first, second) =
      >>-true (put_byte v) (if v == 0xff then put_byte 0x00 else succeed) c c' h in
    let a : Appends (v ∷ []) c d = put_byte-Appends v c d r first in
    rw (stuff-singleton v)
      (Appends-trans a (stuffing-Appends v d c' (HasRoom-Appends r a) (v == 0xff) second))

pub written-stuff :
    (start bytes : List ℕ) {b : ℕ} (v : ℕ) (c d : JpegCtx)
    → take c.pos c.dst ≡ start ++ stuff bytes
    → b ≡ v
    → Appends (stuff (b ∷ [])) c d
    → take d.pos d.dst ≡ start ++ stuff (bytes ++ v ∷ [])
written-stuff start bytes v c d w e a =
    a.written
    ∙ ap₂ (λ (xs : List ℕ) (y : ℕ). xs ++ stuff (y ∷ [])) w e
    ∙ append_assoc start (stuff bytes) (stuff (v ∷ []))
    ∙ ap (λ (xs : List ℕ). start ++ xs) (sym (stuff-append bytes (v ∷ [])))

-- The scan that started behind `start` has been given the bits `bs`: some are in whole bytes in the
-- destination, stuffed, and the last `bitcnt` of them are at the top of the bit buffer.
pub record IsScan (start bs : List ℕ) (c : JpegCtx) : Type 0 where
  pub bytes : List ℕ
  pub rem : ℕ
  pub room : HasRoom c
  pub written : take c.pos c.dst ≡ start ++ stuff bytes
  pub pending : rem < 2 ^ c.bitcnt
  pub buffered : c.bitbuf ≡ rem * 2 ^ (32 - c.bitcnt)
  pub given : bits_of bytes ++ bits c.bitcnt rem ≡ bs

IsScan-byte :
    (start bs : List ℕ) (k : ℕ) (c d : JpegCtx)
    → k ≤ 24
    → c.bitcnt ≡ 8 + k
    → (s : IsScan start bs c) → Appends (stuff (u8 (c.bitbuf >>> 24) ∷ [])) c d
    → IsScan start bs (record d { bitbuf = u32 (d.bitbuf <<< 8); bitcnt = d.bitcnt - 8 })
IsScan-byte start bs k c d hk hc s a =
    let v : ℕ = s.rem / 2 ^ k in
    let r : ℕ = s.rem % 2 ^ k in
    let left : 32 - c.bitcnt ≡ 24 - k = omega arith in
    let cnt : d.bitcnt - 8 ≡ k = omega (arith, a.same_bitcnt) in
    let window : c.bitbuf ≡ s.rem * 2 ^ (24 - k) =
      s.buffered ∙ ap (λ (t : ℕ). s.rem * 2 ^ t) left in
    let (top, rest, byte) = top_byte k s.rem hk (subst (λ (t : ℕ). s.rem < 2 ^ t) hc s.pending) in
    let value : u8 (c.bitbuf >>> 24) ≡ v = ap (λ (t : ℕ). u8 (t >>> 24)) window ∙ top in
    let digits : bits c.bitcnt s.rem ≡ bits 8 v ++ bits k r =
      ap₂ bits hc (sym (div-add-mod' s.rem (2 ^ k)))
      ∙ bits-field 8 k v r (mod-lt s.rem (two_pow_pos k)) in
    record {
      bytes = s.bytes ++ v ∷ [];
      rem = r;
      room = HasRoom-Appends s.room a;
      written = written-stuff start s.bytes v c d s.written value a;
      pending = subst (λ (t : ℕ). r < 2 ^ t) (sym cnt) (mod-lt s.rem (two_pow_pos k));
      buffered =
          ap (λ (t : ℕ). u32 (t <<< 8)) (a.same_bitbuf ∙ window)
          ∙ rest
          ∙ ap (λ (t : ℕ). r * 2 ^ (32 - t)) (sym cnt);
      given =
          ap₂ (λ (xs : List ℕ) (t : ℕ). xs ++ bits t r) (bits_of-append s.bytes (v ∷ [])) cnt
          ∙ (rw (append-nil, append_assoc, ← digits) s.given);
    }

-- The loop writes whole bytes until fewer than eight bits are pending, and loses none.
drain-IsScan :
    (fuel : ℕ) (start bs : List ℕ) (c c' : JpegCtx)
    → c.bitcnt ≤ fuel
    → c.bitcnt ≤ 32
    → IsScan start bs c
    → drain fuel c ≡ (c', true)
    → IsScan start bs c' × (c'.bitcnt < 8)
unfolding drain
drain-IsScan zero start bs c c' hf hc s h =
    let e : c ≡ c' = ap (λ (r : JpegCtx × Bool). r.0) h in
    subst (λ (x : JpegCtx). IsScan start bs x × (x.bitcnt < 8)) e (s, omega arith)
drain-IsScan (suc fuel) start bs c c' hf hc s h = elim (Bool-cases (leb 8 c.bitcnt)) [
  | inr done ↦
      (let same : ◌≡◌ {A = JpegCtx × Bool} (c, true) (c', true) = rw done at h in
        subst (λ (x : JpegCtx). IsScan start bs x × (x.bitcnt < 8))
          (ap (λ (r : JpegCtx × Bool). r.0) same) (s, ground arith))
  | inl more ↦
      (let shift : Writer =
          λ d. drain fuel (record d { bitbuf = u32 (d.bitbuf <<< 8); bitcnt = d.bitcnt - 8 }) in
        let wide : 8 ≤ c.bitcnt = leb→le 8 c.bitcnt more in
        let split : (put_scan_byte (u8 (c.bitbuf >>> 24)) >> shift) c ≡ (c', true) = rw more at h in
        let (d, first, rest) = >>-true (put_scan_byte (u8 (c.bitbuf >>> 24))) shift c c' split in
        let a : Appends (stuff (u8 (c.bitbuf >>> 24) ∷ [])) c d =
          put_scan_byte-Appends (u8 (c.bitbuf >>> 24)) c d s.room first in
        drain-IsScan fuel start bs
          (record d { bitbuf = u32 (d.bitbuf <<< 8); bitcnt = d.bitcnt - 8 }) c'
          (omega (arith, a.same_bitcnt)) (omega (arith, a.same_bitcnt))
          (IsScan-byte start bs (c.bitcnt - 8) c d (omega arith) (omega arith) s a) rest)
]

-- A code enters the window just below the bits that are pending.
add_code-IsScan :
    (start bs : List ℕ) (code size : ℕ) (c : JpegCtx)
    → c.bitcnt + size ≤ 32
    → code < 2 ^ size
    → IsScan start bs c
    → IsScan start (bs ++ bits size code) (add_code code size c)
unfolding add_code
add_code-IsScan start bs code size c fits small s =
    let (word, less) = window_code c.bitcnt size s.rem code fits s.pending small in
    record {
      bytes = s.bytes;
      rem = s.rem * 2 ^ size + code;
      room = s.room;
      written = s.written;
      pending = less;
      buffered = ap (λ (t : ℕ). bit_or t (u32 (code <<< (32 - c.bitcnt - size)))) s.buffered ∙ word;
      given =
          ap (λ (xs : List ℕ). bits_of s.bytes ++ xs) (bits-field c.bitcnt size s.rem code small)
          ∙ sym (append_assoc (bits_of s.bytes) (bits c.bitcnt s.rem) (bits size code))
          ∙ ap (λ (xs : List ℕ). xs ++ bits size code) s.given;
    }

-- From a scan with fewer than eight bits pending, and for a code that fits its size of at most 16, a successful
-- `t6_jpeg_put_bits` adds exactly the `size` bits of the code to the scan, the highest first, and leaves fewer than eight pending.
pub put_bits-IsScan :
    (start bs : List ℕ) (code size : ℕ) (c c' : JpegCtx)
    → c.bitcnt < 8
    → size ≤ 16
    → code < 2 ^ size
    → IsScan start bs c
    → put_bits code size c ≡ (c', true)
    → IsScan start (bs ++ bits size code) c' × (c'.bitcnt < 8)
unfolding put_bits
put_bits-IsScan start bs code zero c c' hb hs small s h =
    subst (λ (x : JpegCtx). IsScan start (bs ++ []) x × (x.bitcnt < 8))
      (ap (λ (r : JpegCtx × Bool). r.0) h) (rw append-nil s, hb)
put_bits-IsScan start bs code (suc size) c c' hb hs small s h =
    let entered : JpegCtx = add_code code (suc size) c in
    let n : entered.bitcnt ≡ c.bitcnt + suc size = unfold add_code in refl in
    let test : (suc size == 0) ≡ false = ground arith in
    drain-IsScan entered.bitcnt start (bs ++ bits (suc size) code) entered c' (omega arith)
      (omega arith) (add_code-IsScan start bs code (suc size) c (omega arith) small s)
      (rw test at h)
