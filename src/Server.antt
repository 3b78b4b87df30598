-- ===== src/Server.antt =====
-- The server under backend: the hub of its WebSockets, and what the browser makes of what it sends; the
-- votes and their counters; polls, accounts and the handler of a vote.
pub mod Model
pub mod Text
pub mod Stores
pub mod Votes
pub mod Polls
pub mod Sharing
pub mod Accounts
pub mod Casting
pub mod Route
pub mod Hub
pub mod Feed
