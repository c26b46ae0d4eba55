-- ===== src/Examples/Probe.antt =====
-- kernel/trigger6_drv.c: an EDID block with three extensions.
use jcd543_mct_t6_linux_driv.Prelude.{
  ℕ, ◌≡◌, refl, true, List, [], ◌∷◌, ◌++◌, replicate, length, get_or,
}
use jcd543_mct_t6_linux_driv.Driver.Probe.{
  edid_header, checksum, edid_base_block_valid, hide_extensions,
}
use jcd543_mct_t6_linux_driv.Driver.Probe.Edid.{hide_extensions_valid}

abbrev pub edid_block : List ℕ
edid_block = edid_header ++ (replicate 118 0 ++ 3 ∷ 3 ∷ [])

edid_block_valid : edid_base_block_valid edid_block ≡ true
unfolding edid_base_block_valid checksum
edid_block_valid = refl

hide_extensions_valid_example :
    (edid_base_block_valid (hide_extensions edid_block) ≡ true)
    × (length (hide_extensions edid_block) ≡ 128)
    × (get_or (hide_extensions edid_block) 126 0 ≡ 0)
hide_extensions_valid_example = hide_extensions_valid edid_block refl edid_block_valid
