-- ===== src/Policy/Match.antt =====
-- kernel/trigger6_match.h: the descriptor profile of the one supported dock, and the output mask.
pub mod Exact
use Prim.Native.Nat.{bit_and, bit_or}
use jcd543_mct_t6_linux_driv.Prelude.{
  ℕ, Bool, true, false, ◌&&◌, ◌||◌, not, ◌==◌, if◌then◌else◌, Option, none, some,
}

-- `struct t6_endpoint_profile`
pub record Endpoint : Type 0 where
  pub address : ℕ
  pub attributes : ℕ
  pub max_packet : ℕ
  pub interval : ℕ

-- `struct t6_usb_profile`; the array `endpoints[3]` is a triple.
pub record UsbProfile : Type 0 where
  pub vendor : ℕ
  pub product : ℕ
  pub revision : ℕ
  pub device_class : ℕ
  pub device_subclass : ℕ
  pub device_protocol : ℕ
  pub configurations : ℕ
  pub configuration : ℕ
  pub interfaces : ℕ
  pub interface_number : ℕ
  pub alternate_setting : ℕ
  pub alternate_settings : ℕ
  pub interface_class : ℕ
  pub interface_subclass : ℕ
  pub interface_protocol : ℕ
  pub superspeed : ℕ
  pub endpoint_count : ℕ
  pub endpoints : Endpoint × Endpoint × Endpoint

abbrev pub vid : ℕ
vid = 0x0711

abbrev pub pid : ℕ
pid = 0x5601

abbrev pub bcd_device : ℕ
bcd_device = 0x1010

abbrev pub ep_bulk_out : ℕ
ep_bulk_out = 0x02

-- The guard before the loop, negated: every scalar field has its one permitted value.
unfoldable pub header_matches : UsbProfile → Bool
header_matches p =
    p.vendor == vid
    && p.product == pid
    && p.revision == bcd_device
    && p.device_class == 0xff
    && p.device_subclass == 0
    && p.device_protocol == 0
    && p.configurations == 1
    && p.configuration == 1
    && p.interfaces == 1
    && p.interface_number == 0
    && p.alternate_setting == 0
    && p.alternate_settings == 1
    && p.interface_class == 0xff
    && p.interface_subclass == 0
    && p.interface_protocol == 0
    && p.superspeed == 1
    && p.endpoint_count == 3

-- The if-chain of the loop body: the bit of an endpoint, or `return 0`.
unfoldable pub endpoint_bit : Endpoint → Option ℕ
endpoint_bit ep =
    if ep.address == 0x81 && ep.attributes == 2 && ep.max_packet == 1024 && ep.interval == 0
    then some 1
    else if ep.address == ep_bulk_out
        && ep.attributes == 2
        && ep.max_packet == 1024
        && ep.interval == 0
    then some 2
    else if ep.address == 0x83 && ep.attributes == 3 && ep.max_packet == 64 && ep.interval == 5
    then some 4
    else none

-- One round of the loop: the new `seen`, or `return 0`.
unfoldable pub see : ℕ → Endpoint → Option ℕ
see seen ep = elim (endpoint_bit ep) [
  | none ↦ none
  | some bit ↦ if not (bit_and seen bit == 0) then none else some (bit_or seen bit)
]

-- The loop, and `return seen == 7`.
unfoldable pub endpoints_match : Endpoint × Endpoint × Endpoint → Bool
endpoints_match (e, f, g) = elim (see 0 e) [
  | none ↦ false
  | some s ↦ elim (see s f) [
    | none ↦ false
    | some t ↦ elim (see t g) [ none ↦ false | some u ↦ u == 7 ]
  ]
]

unfoldable pub profile_matches : UsbProfile → Bool
profile_matches p = if header_matches p then endpoints_match p.endpoints else false

unfoldable pub output_mask_valid : ℕ → Bool
output_mask_valid mask = mask == 1 || mask == 2
