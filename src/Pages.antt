-- ===== src/Pages.antt =====
-- frontend/src/pages: each page as its state, its handlers and its view. A handler that awaits a call
-- is two steps, one up to the call and one from its answer.
pub mod Live
pub mod Requests
pub mod Drawn
pub mod CreatePoll
pub mod PublicPoll
pub mod ManagePoll
pub mod Dashboard
pub mod Login
pub mod Signup
pub mod Results
pub mod Landing
