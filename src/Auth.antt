-- ===== src/Auth.antt =====
-- Accounts and authentication: app/models/user.py, app/repositories/user.py and
-- app/services/auth_service.py, with the dependencies that resolve the caller of a request.
pub mod Tables
pub mod Repositories
pub mod Issue
pub mod Registration
pub mod Login
pub mod Passwords
pub mod Sessions
pub mod Tokens
pub mod Rotation
pub mod Credentials
pub mod Revocation
pub mod Continuity
pub mod Access
pub mod Bearer
pub mod Permissions
pub mod Scopes
pub mod AccessTests
pub mod Recovery
pub mod Cases
pub mod SampleTests
pub mod Usernames
pub mod Callback
pub mod CallbackStates
pub mod CallbackUsers
pub mod CallbackTests
pub mod Cleanup
pub mod CleanupEffects
pub mod CleanupTests
pub mod UsernameSearch
pub mod Tests
pub mod Verification
