-- ===== src/Auth.antt =====
-- crates/xrouter-auth/src/lib.rs: the kinds of providers with a device login.
pub mod Store
pub mod Rounds
pub mod Accounts
pub mod Refresh
mod Tests
use xrouter.Common.{Bool, ◌||◌, none, some, Text, codes, text_eq, strip_prefix, starts_with}

unfoldable pub is_device_kind : Text → Bool
is_device_kind kind =
    text_eq kind (codes "kiro")
    || text_eq kind (codes "antigravity")
    || starts_with (codes "device:") kind

unfoldable pub normalize_provider : Text → Text
normalize_provider kind = elim (strip_prefix (codes "device:") kind) [
  | some rest ↦ rest
  | none ↦ kind
]
