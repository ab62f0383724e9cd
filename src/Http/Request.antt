-- ===== src/Http/Request.antt =====
-- HttpParser.hpp: `HttpRequestParser`, a machine that takes one byte at a time, and the
-- `HttpRequestBase` that it fills.
pub mod Types
pub mod Line
pub mod Fields
pub mod Body
pub mod Machine
pub mod Chunks
pub mod Safety
pub mod Render
pub mod Headers
pub mod Requests
pub mod Reuse
mod Examples
