-- ===== src/Prelude/Dict.antt =====
-- Go's maps with string keys, as association lists with distinct keys.
mod Defs
mod Laws
mod Totals
unfoldable pub use Defs.*
pub use Laws.*
pub use Totals.*
