-- ===== src/Driver/Jpeg/Quality.antt =====
-- kernel/trigger6_drv.c: the feedback of the encoder's time to the quality of the next image.
use jcd543_mct_t6_linux_driv.Prelude.{ℕ, ◌+◌, ◌≤◌, ◌<◌, ◌≡◌, ◌⊎◌, arith}
use jcd543_mct_t6_linux_driv.Driver.Jpeg.{adapt_quality}

-- The next quality is from 20 to 95. From a quality in that range, an encoding of more than 30 ms never raises it, one of less than
-- 21 ms never lowers it, any other time leaves it as it is, and it changes by at most 5.
pub adapt_quality_bounds :
    (ms q : ℕ)
    → (20 ≤ adapt_quality ms q)
      × (adapt_quality ms q ≤ 95)
      × ((q < 20)
          ⊎ ((95 < q)
              ⊎ (((ms ≤ 30) ⊎ (adapt_quality ms q ≤ q))
                  × ((21 ≤ ms) ⊎ (q ≤ adapt_quality ms q))
                  × ((ms < 21) ⊎ ((30 < ms) ⊎ (adapt_quality ms q ≡ q)))
                  × (adapt_quality ms q ≤ q + 2)
                  × (q ≤ adapt_quality ms q + 5))))
unfolding adapt_quality
adapt_quality_bounds ms q = ground arith
