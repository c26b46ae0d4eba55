-- ===== src/Driver/Packet.antt =====
-- kernel/trigger6.h: the bulk command header and the flip header, as the bytes that go over the wire.
use jcd543_mct_t6_linux_driv.Prelude.{ℕ, ◌/◌, ◌%◌, ◌^◌, List, [], ◌∷◌, ◌++◌, replicate}

abbrev pub le16 : ℕ → List ℕ
le16 n = (n % 256) ∷ (n / 256 % 256) ∷ []

abbrev pub le32 : ℕ → List ℕ
le32 n = (n % 256) ∷ (n / 256 % 256) ∷ (n / 2 ^ 16 % 256) ∷ (n / 2 ^ 24 % 256) ∷ []

-- `struct t6_bulk_header`, whose other fields are always zero.
pub record BulkHeader : Type 0 where
  pub payload_length : ℕ
  pub payload_address : ℕ
  pub packet_length : ℕ

unfoldable pub bulk_header_bytes : BulkHeader → List ℕ
bulk_header_bytes h =
    le32 0
    ++ le32 h.payload_length
    ++ le32 h.payload_address
    ++ le32 h.packet_length
    ++ replicate 16 0

-- `struct t6_flip_header`
pub record FlipHeader : Type 0 where
  pub command : ℕ
  pub payload_size : ℕ
  pub fence_id : ℕ
  pub target_format : ℕ
  pub y_pitch : ℕ
  pub uv_pitch : ℕ
  pub y_fb_offset : ℕ
  pub u_offset : ℕ
  pub v_offset : ℕ
  pub source_format : ℕ
  pub flag : ℕ

abbrev pub zero_flip : FlipHeader
zero_flip = record {
  command = 0;
  payload_size = 0;
  fence_id = 0;
  target_format = 0;
  y_pitch = 0;
  uv_pitch = 0;
  y_fb_offset = 0;
  u_offset = 0;
  v_offset = 0;
  source_format = 0;
  flag = 0;
}

unfoldable pub flip_header_bytes : FlipHeader → List ℕ
flip_header_bytes h =
    le32 h.command
    ++ le32 h.payload_size
    ++ le32 h.fence_id
    ++ le32 h.target_format
    ++ le16 h.y_pitch
    ++ le16 h.uv_pitch
    ++ le32 h.y_fb_offset
    ++ le32 h.u_offset
    ++ le32 h.v_offset
    ++ le32 h.source_format
    ++ replicate 11 0
    ++ (h.flag % 256) ∷ []
