-- ===== src/Http/Url.antt =====
-- HttpParser.hpp: `UrlParser`, which takes a URL apart in one pass.
pub mod Types
pub mod Cases
pub mod Parse
pub mod Scan
pub mod Port
pub mod Written
pub mod RoundTrip
pub mod Refused
pub mod Safe
mod Examples
