-- ===== src/Outbound.antt =====
-- outbound: the transports and the clients of the Example service.
pub mod Http
pub mod Headers
pub mod Contained
pub mod Example
pub mod Replies
pub mod Rpc
pub mod Tokens
pub mod Lists
