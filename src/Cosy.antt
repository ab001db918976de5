-- ===== src/Cosy.antt =====
-- internal/qodertransport/cosy: the encoding of bodies (Encoding) and the requests that are sent (Send).
pub mod Encoding
pub mod Send
pub mod Crypto
