-- ===== src/Examples.antt =====
-- Tests, and the theorems at concrete inputs.
mod Realtime
mod Session
mod Pages
mod Forms
mod Numbers
mod Drawn
mod Router
mod Client
mod Requests
mod Databases
mod Server
mod Votes
mod Polls
mod Accounts
