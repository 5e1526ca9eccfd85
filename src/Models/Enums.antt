-- ===== src/Models/Enums.antt =====
-- app/models/enums.py: the enumerations behind the native enum columns. `<name>_value` is the label
-- that a member is stored and sent as, and `of_value` of the prelude is the call of the class on
-- a label.
mod Accounts
mod Billing
mod Catalog
mod Chat
mod Exports
unfoldable pub use Accounts.*
unfoldable pub use Billing.*
unfoldable pub use Catalog.*
unfoldable pub use Chat.*
unfoldable pub use Exports.*
