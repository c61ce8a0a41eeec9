-- ===== src/Cdn.antt =====
-- src/cdn/: the cache in front of the private bucket. Headers reads the headers that decide what is
-- cached and what has changed; Edge is the server.
pub mod Headers
pub mod Edge
