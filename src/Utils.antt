-- ===== src/Utils.antt =====
-- frontend/src/utils
pub mod Constants
pub mod Token
pub mod Browser
pub mod Percent
