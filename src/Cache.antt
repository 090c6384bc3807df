-- ===== src/Cache.antt =====
-- The credential caches of cache.c: open addressing with linear probing and doubling.
pub mod Hash
pub mod Table
pub mod Probe
pub mod Used
pub mod Insert
pub mod Rehash
pub mod Zero
pub mod Grow
pub mod History
pub mod Ip
pub mod App
pub mod Ends
mod Examples
