-- ===== src/Policy/Query.antt =====
-- kernel/trigger6_query.h: which control IN requests a query-only run may make.
pub mod ReadOnly
use jcd543_mct_t6_linux_driv.Prelude.{
  ℕ, ◌*◌, ◌%◌, Bool, true, false, ◌&&◌, ◌||◌, not, ltb, leb, ◌==◌, if◌then◌else◌,
}

abbrev pub req_get_edid : ℕ
req_get_edid = 0x80

abbrev pub req_get_res_count : ℕ
req_get_res_count = 0x84

abbrev pub req_get_status : ℕ
req_get_status = 0x87

abbrev pub req_get_ram : ℕ
req_get_ram = 0x88

abbrev pub req_get_res_table : ℕ
req_get_res_table = 0x89

abbrev pub res_entry_size : ℕ
res_entry_size = 32

abbrev pub res_max_entries : ℕ
res_max_entries = 16

abbrev pub res_table_size : ℕ
res_table_size = res_entry_size * res_max_entries

unfoldable pub timing_query_entries : ℕ → ℕ
timing_query_entries count = if ltb count res_max_entries then count else res_max_entries

-- The `switch` on the request, for the head that the mask selects.
pub switch_req : Bool → Bool → ℕ → ℕ → ℕ → ℕ → ℕ → Bool
switch_req timings page1 head req value index size =
    if req == req_get_ram
    then value == 0 && index == 0 && size == 4
    else if req == req_get_status
    then value == head && index == 0 && size == 1
    else if req == req_get_edid
    then value == 0 && index == head && size == 128
    else if req == req_get_res_count
    then timings && value == 0 && index == 0 && size == 4
    else if req == req_get_res_table
    then if page1
      then timings && value == 0 && index == 512 && size == 512
      else timings
        && value == 0
        && index == 0
        && not (size == 0)
        && leb size res_table_size
        && size % res_entry_size == 0
    else false

unfoldable pub query_in_allowed : ℕ → Bool → Bool → ℕ → ℕ → ℕ → ℕ → Bool
unfolding switch_req
query_in_allowed output_mask timings page1 req value index size =
    if not (output_mask == 1) && not (output_mask == 2)
    then false
    else if timings && not (output_mask == 1)
    then false
    else if page1 && not timings
    then false
    else switch_req timings page1 (if output_mask == 1 then 0 else 1) req value index size
