-- ===== src/Driver/Usb/Chunks.antt =====
-- kernel/trigger6_drv.c: the chunks of a bulk write are the bytes that it is given, in order.
use jcd543_mct_t6_linux_driv.Prelude.{
  ℕ, zero, suc, ◌+◌, ◌-◌, ◌≤◌, ◌<◌, ◌≡◌, ◌≢◌, ◌⊎◌, ◌∙◌, ap, sym, refl, inl, inr, true, false, List,
  [], ◌∷◌, ◌++◌, arith, if◌then◌else◌, ◌==◌, length, Bool-cases, min, take, drop, length-drop,
  length-take, ==_iff,
}
use mathlib.Core.List.{append_assoc, append-nil}
use jcd543_mct_t6_linux_driv.Prelude.Errno.{eio}
use jcd543_mct_t6_linux_driv.Prelude.Int.{ℤ, pos, is_negative}
use jcd543_mct_t6_linux_driv.Driver.Device.{
  Device, update_last_max, Params, Transfer, control_out, control_in, bulk_out,
}
use jcd543_mct_t6_linux_driv.Driver.Usb.{
  Bus, bulk_write, bulk_loop, bulk_chunk, observe_suspend, xfer_chunk_size,
}

-- The bytes of the bulk transfers, in order.
abbrev pub payload : List Transfer → List ℕ
payload [] = []
payload (bulk_out bytes ∷ w) = bytes ++ payload w
payload (control_out s bytes ∷ w) = payload w
payload (control_in s ∷ w) = payload w

payload-append : (v w : List Transfer) → payload (v ++ w) ≡ payload v ++ payload w
payload-append [] w = refl
payload-append (bulk_out bytes ∷ v) w = rw (payload-append v w, append_assoc)
payload-append (control_out s bytes ∷ v) w = payload-append v w
payload-append (control_in s ∷ v) w = payload-append v w

-- Every bulk transfer has a chunk that fits the staging buffer, and none is empty.
abbrev pub AllChunks : List Transfer → Type 0
AllChunks [] = Unit
AllChunks (bulk_out bytes ∷ w) = (0 < length bytes) × (length bytes ≤ xfer_chunk_size) × AllChunks w
AllChunks (control_out s bytes ∷ w) = AllChunks w
AllChunks (control_in s ∷ w) = AllChunks w

AllChunks-snoc :
    (w : List Transfer) (bytes : List ℕ)
    → 0 < length bytes
    → length bytes ≤ xfer_chunk_size
    → AllChunks w
    → AllChunks (w ++ bulk_out bytes ∷ [])
AllChunks-snoc [] bytes p q h = (p, q, tt)
AllChunks-snoc (bulk_out b ∷ w) bytes p q h = (h.0, h.1, AllChunks-snoc w bytes p q h.2)
AllChunks-snoc (control_out s b ∷ w) bytes p q h = AllChunks-snoc w bytes p q h
AllChunks-snoc (control_in s ∷ w) bytes p q h = AllChunks-snoc w bytes p q h

take-nil : (n : ℕ) → take {A = ℕ} n [] ≡ []
take-nil zero = refl
take-nil (suc n) = refl

take-all : (xs : List ℕ) → take (length xs) xs ≡ xs
take-all [] = refl
take-all (x ∷ xs) = ap (λ (t : List ℕ). x ∷ t) (take-all xs)

take-add : (m n : ℕ) (xs : List ℕ) → take (m + n) xs ≡ take m xs ++ take n (drop m xs)
take-add zero n xs = let e : 0 + n ≡ n = omega arith in rw e
take-add (suc m) n [] = take-nil (suc m + n) ∙ sym (take-nil n)
take-add (suc m) n (x ∷ xs) =
    let e : suc m + n ≡ suc (m + n) = omega arith in rw (e, take-add m n xs)

module _ (params : Params) (bus : Bus) where
  chunk_lem :
      (chunk : List ℕ) (t6 : Device)
      → let (t, r, more) = bulk_chunk params bus chunk t6 in
        (t.wire ≡ t6.wire ++ bulk_out chunk ∷ [])
        × (more ≡ true → is_negative r ≡ false)
        × (more ≡ false → (is_negative r ≡ true) × (t.io_faulted ≡ true))
  unfolding bulk_chunk
  chunk_lem chunk t6 = ground arith

  wire-observe_suspend : (t6 : Device) → (observe_suspend params bus t6).wire ≡ t6.wire
  unfolding observe_suspend
  wire-observe_suspend t6 = ground arith

  -- What the loop has sent of `src` when it stops: its first `count` bytes, in chunks. A success has
  -- sent them all, and a failure leaves the fault latched.
  pub record Sent (src : List ℕ) (w : List Transfer) (out : Device × ℤ) : Type 0 where
    pub count : ℕ
    pub within : count ≤ length src
    pub bytes : payload out.0.wire ≡ payload w ++ take count src
    pub chunks : AllChunks out.0.wire
    pub outcome :
        (is_negative out.1 ≡ false) × (count ≡ length src)
        ⊎ (is_negative out.1 ≡ true) × (out.0.io_faulted ≡ true)

  Sent-none :
      (src : List ℕ) (w : List Transfer) (out : Device × ℤ)
      → out.0.wire ≡ w
      → AllChunks w
      → (is_negative out.1 ≡ false) × (0 ≡ length src)
        ⊎ (is_negative out.1 ≡ true) × (out.0.io_faulted ≡ true)
      → Sent src w out
  Sent-none src w out e a o = record {
    count = 0;
    within = omega arith;
    bytes = rw e (sym (append-nil (payload w)));
    chunks = rw e a;
    outcome = o;
  }

  Sent-chunk :
      (k : ℕ) (src : List ℕ) (w v : List Transfer) (out : Device × ℤ)
      → k ≤ length src
      → v ≡ w ++ bulk_out (take k src) ∷ []
      → Sent (drop k src) v out
      → Sent src w out
  Sent-chunk k src w v out hk e s =
      let d : length (drop k src) ≡ length src - k = length-drop k src in
      let p : payload v ≡ payload w ++ take k src =
        ap payload e
        ∙ payload-append w (bulk_out (take k src) ∷ [])
        ∙ ap (λ (t : List ℕ). payload w ++ t) (append-nil (take k src)) in
      record {
        count = k + s.count;
        within = omega (arith, s.within, d);
        bytes =
            s.bytes
            ∙ ap (λ (t : List ℕ). t ++ take s.count (drop k src)) p
            ∙ append_assoc (payload w) (take k src) (take s.count (drop k src))
            ∙ ap (λ (t : List ℕ). payload w ++ t) (sym (take-add k s.count src));
        chunks = s.chunks;
        outcome = elim s.outcome [ inl q ↦ inl (q.0, omega (arith, q.1, d)) | inr q ↦ inr q ];
      }

  -- One round of the loop, with the claim for the rest of it.
  loop_round :
      (fuel : ℕ) (src : List ℕ) (t6 : Device)
      → length src < suc fuel
      → length src ≢ 0
      → AllChunks t6.wire
      → ((rest : List ℕ) (r : ℤ) (t : Device)
          → length rest < fuel
          → is_negative r ≡ false
          → AllChunks t.wire
          → Sent rest t.wire (bulk_loop params bus fuel rest r t))
      → let seen = observe_suspend params bus t6 in
        let k = min xfer_chunk_size (length src) in
        let (sent, r, more) = bulk_chunk params bus (take k src) seen in
        Sent src t6.wire (
          if seen.io_faulted
          then (seen, eio)
          else if more
          then bulk_loop params bus fuel (drop k src) r sent
          else (sent, r))
  unfolding observe_suspend
  loop_round fuel src t6 h ne a ih =
      let seen = observe_suspend params bus t6 in
      let k = min xfer_chunk_size (length src) in
      let (sent, r, more) = bulk_chunk params bus (take k src) seen in
      let (wire, goes_on, stops) = chunk_lem (take k src) seen in
      let same : seen.wire ≡ t6.wire = wire-observe_suspend t6 in
      let v : sent.wire ≡ t6.wire ++ bulk_out (take k src) ∷ [] =
        wire ∙ ap (λ (w : List Transfer). w ++ bulk_out (take k src) ∷ []) same in
      let size : length (take k src) ≡ k = omega (arith, length-take k src) in
      let chunks : AllChunks sent.wire =
        rw v (AllChunks-snoc t6.wire (take k src) (omega (arith, size)) (omega (arith, size)) a) in
      elim (Bool-cases seen.io_faulted) [
        | inl f ↦ rw f (Sent-none src t6.wire (seen, eio) same a (inr (refl, f)))
        | inr f ↦ rw f (elim (Bool-cases more) [
          | inl m ↦ rw m (
              Sent-chunk k src t6.wire sent.wire (bulk_loop params bus fuel (drop k src) r sent)
                (omega arith) v
                (ih (drop k src) r sent (omega (arith, length-drop k src)) (goes_on m) chunks))
          | inr m ↦ rw m (
              Sent-chunk k src t6.wire sent.wire (sent, r) (omega arith) v
                (Sent-none (drop k src) sent.wire (sent, r) refl chunks (inr (stops m))))
        ])
      ]

  loop-Sent :
      (fuel : ℕ) (src : List ℕ) (ret : ℤ) (t6 : Device)
      → length src < fuel
      → is_negative ret ≡ false
      → AllChunks t6.wire
      → Sent src t6.wire (bulk_loop params bus fuel src ret t6)
  unfolding bulk_loop
  loop-Sent zero src ret t6 h p a = absurd (omega arith)
  loop-Sent (suc fuel) src ret t6 h p a = elim (Bool-cases (length src == 0)) [
    | inl done ↦
        rw done
          (Sent-none src t6.wire (t6, ret) refl a (inl (p, sym ((==_iff (length src) 0).0 done))))
    | inr more ↦ rw more (loop_round fuel src t6 h (ground arith) a (loop-Sent fuel))
  ]

  counted : List ℕ → Device → Device
  counted src t6 =
      let m = t6.metrics in
      record t6 {
        metrics = record m {
          bulk_calls = m.bulk_calls + 1;
          bulk_bytes = m.bulk_bytes + length src;
          last_bulk_bytes = length src;
        };
      }

  timed : Device × ℤ → Device × ℤ
  timed (t, ret) = (
    record t {
      metrics = record (t.metrics) {
        bulk_time = update_last_max (bus.elapsed_ns t.wire) t.metrics.bulk_time;
      };
    },
    ret,
  )

  -- With no reason to refuse, the write is its loop.
  bulk_write-loop :
      (src : List ℕ) (t6 : Device)
      → t6.manual_only ≡ false
      → t6.io_faulted ≡ false
      → params.query_only ≡ false
      → t6.has_bulk_chunk ≡ true
      → bulk_write params bus src t6 ≡ (
          if length src == 0
          then (t6, pos 0)
          else timed (bulk_loop params bus (length src + 1) src (pos 0) (counted src t6)))
  unfolding bulk_write counted timed
  bulk_write-loop src t6 m f q b = ground arith

  -- A bulk write on a device that is open for output, with its chunk buffer there and only chunks of the right
  -- size sent before, sends its bytes in order, in chunks that are not
  -- empty and fit the staging buffer. If it succeeds it has sent all of them, and if it fails it has sent
  -- the first ones and the fault is latched.
  pub bulk_write-Sent :
      (src : List ℕ) (t6 : Device)
      → t6.manual_only ≡ false
      → t6.io_faulted ≡ false
      → params.query_only ≡ false
      → t6.has_bulk_chunk ≡ true
      → AllChunks t6.wire
      → Sent src t6.wire (bulk_write params bus src t6)
  unfolding timed counted
  bulk_write-Sent src t6 m f q b a =
      rw (bulk_write-loop src t6 m f q b) (elim (Bool-cases (length src == 0)) [
        | inl none_left ↦ rw none_left (
            Sent-none src t6.wire (t6, pos 0) refl a
              (inl (refl, sym ((==_iff (length src) 0).0 none_left))))
        | inr some_left ↦ rw some_left (
            let s : Sent src t6.wire
                (bulk_loop params bus (length src + 1) src (pos 0) (counted src t6)) =
              loop-Sent (length src + 1) src (pos 0) (counted src t6) (omega arith) refl a in
            record {
              count = s.count;
              within = s.within;
              bytes = s.bytes;
              chunks = s.chunks;
              outcome = s.outcome;
            })
      ])
