-- ===== src/Codec/Decode/Scan/Component.antt =====
-- kernel/trigger6_codec.c: one block of a component, read back by a decoder.
use mathlib.Core.Path.{ap₂}
use jcd543_mct_t6_linux_driv.Prelude.{ℕ, ◌≡◌, refl, sym, ap, ◌∙◌, Bool, true, List, [], ◌∷◌}
use jcd543_mct_t6_linux_driv.Prelude.Int.{ℤ}
use jcd543_mct_t6_linux_driv.Codec.Huffman.{HuffTable}
use jcd543_mct_t6_linux_driv.Codec.Quant.{at}
use jcd543_mct_t6_linux_driv.Codec.Quant.Span.{IsWithin}
use jcd543_mct_t6_linux_driv.Codec.Quant.Magnitude.{IsQuantized}
use jcd543_mct_t6_linux_driv.Codec.Block.{put_coeffs}
use jcd543_mct_t6_linux_driv.Codec.Writer.{JpegCtx, Writer}
use jcd543_mct_t6_linux_driv.Codec.Encode.{Encoder, Step}
use jcd543_mct_t6_linux_driv.Codec.Decode.{Reader, give, ◌and_then◌, and_then_lem}
use jcd543_mct_t6_linux_driv.Codec.Decode.Symbols.{read_symbol, CodesDc, CodesAc}
use jcd543_mct_t6_linux_driv.Codec.Decode.Block.{read_block, zigzag_from}
use jcd543_mct_t6_linux_driv.Codec.Decode.Coefficients.{put_coeffs-Sends}
use jcd543_mct_t6_linux_driv.Codec.Decode.Scan.{
  Prediction, BlockReader, IsPrediction, prediction, SendsBlocks,
}

-- How a step finds the DC coefficient before its block in the prediction, and stores the context and the new one.
pub record Component : Type 0 where
  pub get : Prediction → ℤ
  pub put : ℤ → Prediction → Prediction
  pub store : Encoder → JpegCtx → ℤ → Encoder
  pub store_ctx : (e : Encoder) (c : JpegCtx) (v : ℤ) → (store e c v).ctx ≡ c
  pub store_put :
      (e : Encoder) (c : JpegCtx) (v : ℤ) → prediction (store e c v) ≡ put v (prediction e)
  pub get_range : (d : Prediction) → IsPrediction d → IsWithin 1024 1016 (get d)
  pub put_range :
      (v : ℤ) (d : Prediction) → IsWithin 1024 1016 v → IsPrediction d → IsPrediction (put v d)

unfoldable pub luma_component : Component
luma_component = record {
  get = λ d. d.y;
  put = λ v d. record d { y = v };
  store = λ e c v. record e { ctx = c; prev_dc_y = v };
  store_ctx = λ e c v. refl;
  store_put = λ e c v. refl;
  get_range = λ d r. r.y;
  put_range = λ v d w r. record { y = w; cb = r.cb; cr = r.cr };
}

unfoldable pub cb_component : Component
cb_component = record {
  get = λ d. d.cb;
  put = λ v d. record d { cb = v };
  store = λ e c v. record e { ctx = c; prev_dc_cb = v };
  store_ctx = λ e c v. refl;
  store_put = λ e c v. refl;
  get_range = λ d r. r.cb;
  put_range = λ v d w r. record { y = r.y; cb = w; cr = r.cr };
}

unfoldable pub cr_component : Component
cr_component = record {
  get = λ d. d.cr;
  put = λ v d. record d { cr = v };
  store = λ e c v. record e { ctx = c; prev_dc_cr = v };
  store_ctx = λ e c v. refl;
  store_put = λ e c v. refl;
  get_range = λ d r. r.cr;
  put_range = λ v d w r. record { y = r.y; cb = r.cb; cr = w };
}

-- A writer that has run behind the DC coefficient `before`, of which it is known what it is.
ran :
    (w : ℤ → Writer) (f : JpegCtx → Encoder) {before known : ℤ} (c : JpegCtx) (e' : Encoder)
    → ((c : JpegCtx) → (f c).ctx ≡ c)
    → before ≡ known
    → ◌≡◌ {A = Encoder × Bool} (f (w before c).0, (w before c).1) (e', true)
    → w known c ≡ (e'.ctx, true)
ran w f {before} c e' keeps same done =
    ap (λ (v : ℤ). w v c) (sym same)
    ∙ ap₂ pair (sym (keeps (w before c).0) ∙ ap (λ (r : Encoder × Bool). r.0.ctx) done)
        (ap (λ (r : Encoder × Bool). r.1) done)
  where
    pair : JpegCtx → Bool → JpegCtx × Bool
    pair x y = (x, y)

-- A step which codes a block of one component.
unfoldable pub block_step : Component → HuffTable → HuffTable → List ℤ → Step
block_step m dc ac coeffs e =
    let w = put_coeffs dc ac coeffs (m.get (prediction e)) e.ctx in
    (m.store e w.0 (at coeffs 0), w.1)

unfoldable pub block_reader : Component → (ℤ → Reader (List ℤ)) → BlockReader
block_reader m read d = read (m.get d) and_then λ block. give (m.put (at block 0) d, block ∷ [])

pub block_step-Sends :
    {dc ac : HuffTable} {dc_counts dc_vals ac_counts ac_vals : List ℕ} (m : Component)
    (coeffs : List ℤ)
    → CodesDc dc dc_counts dc_vals
    → CodesAc ac ac_counts ac_vals
    → IsQuantized coeffs
    → SendsBlocks
        (block_step m dc ac coeffs)
        (block_reader m
          (read_block (read_symbol dc_counts dc_vals) (read_symbol ac_counts ac_vals)))
        (zigzag_from coeffs 64 0 ∷ [])
unfolding block_step block_reader
block_step-Sends {dc} {ac} {dc_counts} {dc_vals} {ac_counts} {ac_vals} m coeffs dc_codes ac_codes
      q =
    record {
      from = λ d range.
          (let s = put_coeffs-Sends coeffs (m.get d) dc_codes ac_codes q (m.get_range d range) in
            record {
              sent = s.sent;
              after = m.put (at coeffs 0) d;
              range = m.put_range (at coeffs 0) d q.dc range;
              reads = λ rest.
                  and_then_lem
                    (read_block (read_symbol dc_counts dc_vals) (read_symbol ac_counts ac_vals)
                      (m.get d))
                    (λ block. give (m.put (at block 0) d, block ∷ [])) (s.reads rest);
              emits = λ start given e e' same scan few done.
                  (let (scan', few') = s.emits.apply start given e.ctx e'.ctx scan few (
                      ran (put_coeffs dc ac coeffs) (λ c. m.store e c (at coeffs 0)) e.ctx e'
                        (λ c. m.store_ctx e c (at coeffs 0)) (ap m.get same) done) in
                    (
                      scan',
                      few',
                      sym (ap (λ (r : Encoder × Bool). prediction r.0) done)
                          ∙ m.store_put e _ (at coeffs 0)
                          ∙ ap (m.put (at coeffs 0)) same,
                    ));
            });
    }
