-- ===== src/Codec.antt =====
-- What the modelled files use of Go's packages strconv and encoding/base64.
pub mod Int64
pub mod Decimal
pub mod Base64
