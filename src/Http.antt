-- ===== src/Http.antt =====
-- The HTTP/1.1 messages of application-servers/http/http-requests, one module for each type, and
-- the enumerations that they share. Where a stream is read, its buffer is a list of bytes: what
-- `rdbuf()` holds when the operator is called. `in_avail()` is taken to be the length of that
-- list: no bytes arrive while an operator runs.
mod Examples
pub mod Chunk
pub mod Header
pub mod Message
pub mod Version
pub mod Request
pub mod Response
