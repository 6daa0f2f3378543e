-- ===== src/ApiKeys.antt =====
-- proxy/app/auth/api_keys.py: the keys of users, with their expiry, rotation and revocation. A time is a
-- number of seconds and is read once in each operation; the random parts of a key and the hash are
-- arguments.
pub mod Keys
pub mod Dictionary
pub mod Acceptance
pub mod Validation
pub mod Limits
mod Tests
