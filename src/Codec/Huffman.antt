-- ===== src/Codec/Huffman.antt =====
-- kernel/trigger6_codec.c: the Huffman tables, built once from the counts and the values.
use jcd543_mct_t6_linux_driv.Prelude.{
  ℕ, zero, suc, ◌+◌, ◌*◌, Bool, true, ltb, if◌then◌else◌, List, length, set, get_or, replicate,
}
use jcd543_mct_t6_linux_driv.Prelude.Words.{u16}
use jcd543_mct_t6_linux_driv.Codec.Tables.{
  dc_luma_bits, dc_luma_vals, ac_luma_bits, ac_luma_vals, dc_chroma_bits, dc_chroma_vals,
  ac_chroma_bits, ac_chroma_vals,
}

-- `struct t6_jpeg_huff_table`
pub record HuffTable : Type 0 where
  pub codes : List ℕ
  pub sizes : List ℕ

-- The variables of `t6_jpeg_build_huff`.
pub record Build : Type 0 where
  pub table : HuffTable
  pub code : ℕ
  pub pos : ℕ

-- The body of the inner loop: the next value gets the next code of this length.
pub assign : List ℕ → ℕ → Build → Build
assign vals len b =
    let sym = get_or vals b.pos 0 in
    record {
      table = record { codes = set b.table.codes sym b.code; sizes = set b.table.sizes sym len };
      code = u16 (b.code + 1);
      pos = b.pos + 1;
    }

-- The inner loop over the `n` codes of length `len` that are left.
pub assign_all : List ℕ → ℕ → ℕ → ℕ → Build → Build
assign_all vals vals_len len zero b = b
assign_all vals vals_len len (suc n) b =
    let rest = assign_all vals vals_len len n (assign vals len b) in
    if ltb b.pos vals_len then rest else b

-- The outer loop, with `n` lengths left from `len` on.
pub assign_lengths : List ℕ → List ℕ → ℕ → ℕ → ℕ → Build → Build
assign_lengths bits vals vals_len zero len b = b
assign_lengths bits vals vals_len (suc n) len b =
    let b' = assign_all vals vals_len len (get_or bits len 0) b in
    assign_lengths bits vals vals_len n (len + 1) (record b' { code = u16 (b'.code * 2) })

abbrev pub empty_table : HuffTable
empty_table = record { codes = replicate 256 0; sizes = replicate 256 0 }

unfoldable pub build_huff : List ℕ → List ℕ → ℕ → HuffTable
unfolding assign assign_all assign_lengths
build_huff bits vals vals_len =
    (assign_lengths bits vals vals_len 16 1
      (record { table = empty_table; code = 0; pos = 0 })).table

-- The static tables and their ready flag.
pub record HuffTables : Type 0 where
  pub ready : Bool
  pub dc_luma : HuffTable
  pub ac_luma : HuffTable
  pub dc_chroma : HuffTable
  pub ac_chroma : HuffTable

unfoldable pub built_tables : HuffTables
unfolding build_huff
built_tables = record {
  ready = true;
  dc_luma = build_huff dc_luma_bits dc_luma_vals (length dc_luma_vals);
  ac_luma = build_huff ac_luma_bits ac_luma_vals (length ac_luma_vals);
  dc_chroma = build_huff dc_chroma_bits dc_chroma_vals (length dc_chroma_vals);
  ac_chroma = build_huff ac_chroma_bits ac_chroma_vals (length ac_chroma_vals);
}

-- `seen` is the state as it is found under the lock: another thread may have built the tables since.
unfoldable pub init_huff_tables : HuffTables → HuffTables → HuffTables
init_huff_tables tables seen =
    if tables.ready then tables else if seen.ready then seen else built_tables
