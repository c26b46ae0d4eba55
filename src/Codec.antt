-- ===== src/Codec.antt =====
-- kernel/trigger6_codec.c: the baseline JPEG encoder and the NV12 converter.
pub mod Tables
pub mod Writer
pub mod Huffman
pub mod Quant
pub mod Block
pub mod Sample
pub mod Headers
pub mod Encode
pub mod Nv12
pub mod Bounds
pub mod Decode
pub mod Enough
