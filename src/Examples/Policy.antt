-- ===== src/Examples/Policy.antt =====
-- kernel/trigger6_match.h, trigger6_query.h and trigger6_quiesce.h: the policies at concrete inputs.
use jcd543_mct_t6_linux_driv.Prelude.{◌≡◌, ◌↔◌, true, false, none}
use jcd543_mct_t6_linux_driv.Policy.Match.{UsbProfile, profile_matches}
use jcd543_mct_t6_linux_driv.Policy.Match.Exact.{
  IsJcd543, bulk_in, bulk_out, interrupt_in, profile_matches_iff,
}
use jcd543_mct_t6_linux_driv.Policy.Query.{query_in_allowed}
use jcd543_mct_t6_linux_driv.Policy.Query.ReadOnly.{IsRun, IsMeasured, query_in_allowed_iff}
use jcd543_mct_t6_linux_driv.Policy.Quiesce.{FinalOffState, final_off_skip}
use jcd543_mct_t6_linux_driv.Policy.Quiesce.Permit.{IsQuiesced, final_off_skip-none_iff}

-- The adapter, with its endpoints in another order than the table's.
abbrev pub adapter : UsbProfile
adapter = record {
  vendor = 0x0711;
  product = 0x5601;
  revision = 0x1010;
  device_class = 0xff;
  device_subclass = 0;
  device_protocol = 0;
  configurations = 1;
  configuration = 1;
  interfaces = 1;
  interface_number = 0;
  alternate_setting = 0;
  alternate_settings = 1;
  interface_class = 0xff;
  interface_subclass = 0;
  interface_protocol = 0;
  superspeed = 1;
  endpoint_count = 3;
  endpoints = (interrupt_in, bulk_out, bulk_in);
}

-- A device on which the last request is permitted.
abbrev quiesced : FinalOffState
quiesced = record {
  enabled = true;
  manual_only = false;
  query_only = false;
  output_mask = 1;
  profile_matches = true;
  path_matches = true;
  primary_raw = true;
  was_active = true;
  sink_valid = true;
  edid_valid = true;
  faulted = false;
  usb_configured = true;
  unbinding = true;
  drained = true;
}

profile_matches_iff_example : (profile_matches adapter ≡ true) ↔ IsJcd543 adapter
profile_matches_iff_example = profile_matches_iff adapter

query_in_allowed_iff_example :
    (query_in_allowed 2 false false 0x80 0 1 128 ≡ true)
    ↔ (IsRun 2 false false × IsMeasured 2 false false 0x80 0 1 128)
query_in_allowed_iff_example = query_in_allowed_iff 2 false false 0x80 0 1 128

final_off_skip-none_iff_example : (final_off_skip quiesced ≡ none) ↔ IsQuiesced quiesced
final_off_skip-none_iff_example = final_off_skip-none_iff quiesced
