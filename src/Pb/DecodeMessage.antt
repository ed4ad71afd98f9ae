-- ===== src/Pb/DecodeMessage.antt =====
-- Decoding a message: FLChat/Pods/nanopb/pb_decode.c from `decode_static_field` to `pb_release`.
pub mod Services
pub mod Defaults
pub mod Release
pub mod Substream
pub mod Static
pub mod Pointer
pub mod Fields
pub mod Messages
pub mod Required
pub mod Search
pub mod Unknown
pub mod Unread
pub mod Area
