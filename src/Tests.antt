-- ===== src/Tests.antt =====
-- The theorems at concrete inputs, over the session in memory.
mod Tables
mod Worker
mod Files
mod Services
mod Upload
mod Migrations
mod Environment
mod Requests
mod Served
mod Measured
mod RoundTrips
