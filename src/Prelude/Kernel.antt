-- ===== src/Prelude/Kernel.antt =====
-- The kernel's arithmetic macros on unsigned values, by their documented meaning.
use jcd543_mct_t6_linux_driv.Prelude.{ℕ, ◌+◌, ◌-◌, ◌*◌, ◌/◌, min, max}

-- `clamp(x, lo, hi)`
abbrev pub clamp : ℕ → ℕ → ℕ → ℕ
clamp lo hi x = min hi (max lo x)

-- `DIV_ROUND_CLOSEST(x, d)`
abbrev pub div_round_closest : ℕ → ℕ → ℕ
div_round_closest x d = (x + d / 2) / d

-- `DIV_ROUND_UP(x, d)`
abbrev pub div_round_up : ℕ → ℕ → ℕ
div_round_up x d = (x + d - 1) / d

-- `ALIGN(x, a)`
abbrev pub align : ℕ → ℕ → ℕ
align x a = (x + a - 1) / a * a
