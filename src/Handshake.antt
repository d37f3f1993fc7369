-- ===== src/Handshake.antt =====
-- handshake.py: messages of the TLS handshake (backend/app/parsing/handshake.py).
pub mod Parsed
pub mod Groups
pub mod Ciphers
pub mod Messages
pub mod ClientHello
pub mod ServerHello
pub mod Certificate
pub mod Extensions
pub mod Bounds
pub mod RoundTrip
pub mod Grease
mod Tests
