-- ===== src/Http.antt =====
-- HttpParser.hpp and HttpServer.cpp: the HTTP side of the library.
pub mod Chars
pub mod Numbers
pub mod Request
pub mod Response
pub mod Url
pub mod Connection
pub mod Replies
