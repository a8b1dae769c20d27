-- ===== src/Tests.antt =====
-- A platform in memory with its database, and the theorems applied to it.
mod Memory
mod Database
mod Items
mod Servers
mod Endpoints
mod Values
mod Units
mod Logs
mod Starting
mod Sending
mod Signing
mod Chain
mod Histories
