-- ===== src/Services.antt =====
-- frontend/src/services: the REST client and the two services over it.
pub mod Model
pub mod Storage
pub mod Api
pub mod Auth
pub mod Poll
