-- ===== src/Auth.antt =====
-- internals/app/auth: the sign-in flow over the accounts, links, sessions, history and passkeys.
pub mod State
pub mod Policy
pub mod Device
pub mod Ceremony
pub mod Start
pub mod Passkeys
pub mod Login
pub mod Live
pub mod Store
pub mod Rows
pub mod Refines
pub mod Histories
pub mod Second
pub mod Requirement
pub mod Lockout
pub mod Handler
pub mod Account
pub mod Cookies
pub mod Uniform
pub mod Admin
