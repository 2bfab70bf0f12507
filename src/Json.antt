-- ===== src/Json.antt =====
-- src/util/json.{h,cpp}: JSON text. A text is the list of its bytes.
pub mod Escape
pub mod Utf8
pub mod Strings
pub mod Value
pub mod Double
pub mod Parse
