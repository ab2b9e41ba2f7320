-- ===== src/Examples.antt =====
-- Tests of the definitions, and the theorems at concrete inputs.
mod Limiting
mod SignInTokens
mod Claiming
mod Working
mod Paying
mod Proxying
mod Signing
mod Uploading
mod Mailing
mod Switching
mod Naming
mod Sessions
mod Branding
mod Previewing
mod Routes
