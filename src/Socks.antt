-- ===== src/Socks.antt =====
-- The SOCKS5 server of socks.c.
pub mod World
pub mod Handshake
pub mod Request
pub mod Upstream
pub mod Run
pub mod Stream
pub mod Reply
pub mod Redirect
pub mod Dns
pub mod Domain
pub mod Destination
pub mod Lookup
pub mod Password
pub mod Serve
pub mod Bypass
pub mod Connect
pub mod Served
pub mod Whole
pub mod Shared
pub mod Examples
mod DnsExamples
mod WholeExamples
mod LookupExamples
pub mod Method
