-- ===== src/Policy/Match/Exact.antt =====
-- kernel/trigger6_match.h: the descriptor match accepts exactly one device profile.
use jcd543_mct_t6_linux_driv.Prelude.{◌≡◌, ◌⊎◌, ◌↔◌, true, none, some, arith, ◌≢◌}
use jcd543_mct_t6_linux_driv.Policy.Match.{
  Endpoint, UsbProfile, header_matches, endpoint_bit, see, endpoints_match, profile_matches,
}

abbrev pub bulk_in : Endpoint
bulk_in = record { address = 0x81; attributes = 2; max_packet = 1024; interval = 0 }

abbrev pub bulk_out : Endpoint
bulk_out = record { address = 0x02; attributes = 2; max_packet = 1024; interval = 0 }

abbrev pub interrupt_in : Endpoint
interrupt_in = record { address = 0x83; attributes = 3; max_packet = 64; interval = 5 }

-- The endpoint stands in one of the three places.
abbrev pub Among : Endpoint → Endpoint × Endpoint × Endpoint → Type 0
Among ep (e, f, g) = (e ≡ ep) ⊎ ((f ≡ ep) ⊎ (g ≡ ep))

-- The device that the driver is for, described without reference to the order of its endpoints.
pub record IsJcd543 (p : UsbProfile) : Type 0 where
  pub device :
      (p.vendor ≡ 0x0711)
      × (p.product ≡ 0x5601)
      × (p.revision ≡ 0x1010)
      × (p.device_class ≡ 0xff)
      × (p.device_subclass ≡ 0)
      × (p.device_protocol ≡ 0)
  pub configuration :
      (p.configurations ≡ 1) × (p.configuration ≡ 1) × (p.interfaces ≡ 1) × (p.superspeed ≡ 1)
  pub interface :
      (p.interface_number ≡ 0)
      × (p.alternate_setting ≡ 0)
      × (p.alternate_settings ≡ 1)
      × (p.interface_class ≡ 0xff)
      × (p.interface_subclass ≡ 0)
      × (p.interface_protocol ≡ 0)
      × (p.endpoint_count ≡ 3)
  pub has_bulk_in : Among bulk_in p.endpoints
  pub has_bulk_out : Among bulk_out p.endpoints
  pub has_interrupt_in : Among interrupt_in p.endpoints

-- What the chain of tests makes of an endpoint.
bit_cases :
    (ep : Endpoint)
    → ((ep ≡ bulk_in) × (endpoint_bit ep ≡ some 1))
      ⊎ (((ep ≡ bulk_out) × (endpoint_bit ep ≡ some 2))
          ⊎ (((ep ≡ interrupt_in) × (endpoint_bit ep ≡ some 4))
              ⊎ ((endpoint_bit ep ≡ none)
                  × (ep ≢ bulk_in)
                  × (ep ≢ bulk_out)
                  × (ep ≢ interrupt_in))))
unfolding endpoint_bit
bit_cases ep = ground arith

-- The loop accepts three endpoints exactly when they are the three expected ones, in some order.
endpoints_match_iff :
    (es : Endpoint × Endpoint × Endpoint)
    → (endpoints_match es ≡ true) ↔ (Among bulk_in es × Among bulk_out es × Among interrupt_in es)
unfolding endpoints_match see
endpoints_match_iff (e, f, g) = ground (arith, bit_cases e, bit_cases f, bit_cases g)

header_matches_lem :
    (p : UsbProfile)
    → (header_matches p ≡ true) ↔ (
        (p.vendor ≡ 0x0711)
        × (p.product ≡ 0x5601)
        × (p.revision ≡ 0x1010)
        × (p.device_class ≡ 0xff)
        × (p.device_subclass ≡ 0)
        × (p.device_protocol ≡ 0)
        × (p.configurations ≡ 1)
        × (p.configuration ≡ 1)
        × (p.interfaces ≡ 1)
        × (p.interface_number ≡ 0)
        × (p.alternate_setting ≡ 0)
        × (p.alternate_settings ≡ 1)
        × (p.interface_class ≡ 0xff)
        × (p.interface_subclass ≡ 0)
        × (p.interface_protocol ≡ 0)
        × (p.superspeed ≡ 1)
        × (p.endpoint_count ≡ 3))
unfolding header_matches
header_matches_lem p = ground arith

-- A USB profile is accepted exactly when its descriptors are those of the JCD543 and its three
-- endpoints are the bulk input, the bulk output and the interrupt input, in any order.
pub profile_matches_iff : (p : UsbProfile) → (profile_matches p ≡ true) ↔ IsJcd543 p
unfolding profile_matches
profile_matches_iff p = ground (arith, header_matches_lem p, endpoints_match_iff p.endpoints)
