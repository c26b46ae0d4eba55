-- ===== src/Driver/Requests.antt =====
-- kernel/trigger6_drv.c: the register blobs, and the requests of `t6_chip_init`.
use jcd543_mct_t6_linux_driv.Prelude.{ℕ, Option, none, some, List, [], ◌∷◌, length}
use jcd543_mct_t6_linux_driv.Driver.Device.{Setup}

abbrev pub init_color : List ℕ
init_color =
    0x00 ∷ 0x00 ∷ 0x00 ∷ 0x00 ∷ 0x00 ∷ 0x00 ∷ 0x00 ∷ 0x1f ∷ 0x00 ∷ 0x00 ∷ 0x00 ∷ 0x1f ∷ 0x00 ∷ 0x00
    ∷ 0x00 ∷ 0x0f ∷ 0x00 ∷ 0x00 ∷ 0x00 ∷ 0x0f ∷ 0x00 ∷ 0x00 ∷ 0x00 ∷ 0x0f ∷ 0x00 ∷ 0x00 ∷ 0x00
    ∷ 0x0f ∷ 0x00 ∷ 0x00 ∷ 0x00 ∷ 0x0f ∷ 0x00 ∷ 0x00 ∷ 0x00 ∷ 0x0f ∷ 0x00 ∷ 0x00 ∷ 0x00 ∷ 0x00 ∷ []

abbrev pub init_timing_pre : List ℕ
init_timing_pre =
    0x00 ∷ 0x00 ∷ 0x00 ∷ 0x00 ∷ 0x00 ∷ 0x00 ∷ 0x00 ∷ 0x00 ∷ 0x80 ∷ 0x25 ∷ 0x00 ∷ 0x00 ∷ 0x00 ∷ 0x00
    ∷ 0x02 ∷ 0x00 ∷ []

abbrev pub init_timing_post : List ℕ
init_timing_post =
    0x01 ∷ 0x00 ∷ 0x00 ∷ 0x00 ∷ 0x00 ∷ 0x00 ∷ 0x00 ∷ 0x00 ∷ 0x80 ∷ 0x25 ∷ 0x00 ∷ 0x00 ∷ 0x00 ∷ 0x00
    ∷ 0x02 ∷ 0x00 ∷ []

abbrev pub mode_1080p : List ℕ
mode_1080p =
    0x14 ∷ 0x44 ∷ 0x02 ∷ 0x00 ∷ 0x3c ∷ 0x00 ∷ 0x98 ∷ 0x08 ∷ 0x80 ∷ 0x07 ∷ 0xd8 ∷ 0x07 ∷ 0x2c ∷ 0x00
    ∷ 0x65 ∷ 0x04 ∷ 0x38 ∷ 0x04 ∷ 0x3c ∷ 0x04 ∷ 0x05 ∷ 0x00 ∷ 0xbb ∷ 0x02 ∷ 0xe8 ∷ 0x03 ∷ 0x1d
    ∷ 0x01 ∷ 0x01 ∷ 0x01 ∷ 0x00 ∷ 0x00 ∷ []

-- A control request out and its payload; `none` is a null pointer.
abbrev pub Request : Type 0
Request = Setup × Option (List ℕ)

abbrev pub bare : ℕ → ℕ → ℕ → Request
bare req val idx = (record { req = req; val = val; idx = idx; size = 0 }, none)

abbrev pub with_blob : ℕ → ℕ → ℕ → List ℕ → Request
with_blob req val idx blob =
    (record { req = req; val = val; idx = idx; size = length blob }, some blob)

-- The requests before the loop over the heads, those of a connected head, and those behind the loop.
abbrev pub reset_requests : List Request
reset_requests =
    bare 0x1c 0x0000 0
    ∷ bare 0x1c 0x0100 0
    ∷ with_blob 0x23 0 0 init_color
    ∷ with_blob 0x24 0 0 init_timing_pre
    ∷ []

abbrev pub head_requests : ℕ → List Request
head_requests output_idx =
    with_blob 0x12 output_idx 0 mode_1080p ∷ bare 0x31 output_idx 0 ∷ bare 0x03 output_idx 1 ∷ []

abbrev pub final_requests : List Request
final_requests = with_blob 0x24 0 0 init_timing_post ∷ bare 0x1c 0x0002 0 ∷ []
