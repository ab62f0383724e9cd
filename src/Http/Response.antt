-- ===== src/Http/Response.antt =====
-- HttpParser.hpp: `HttpResponseParser`, a machine that takes one byte at a time, the
-- `HttpResponseBase` that it fills, and how a server prints one.
pub mod Types
pub mod Line
pub mod Fields
pub mod Body
pub mod Machine
pub mod Print
pub mod Chunks
pub mod Safety
pub mod Render
pub mod Headers
pub mod Replies
pub mod Printed
mod Examples
