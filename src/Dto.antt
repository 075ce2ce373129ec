-- ===== src/Dto.antt =====
-- pkg/dto and pkg/node: what travels between nodes.
mod Messages
mod Payloads
pub mod Wire
pub use Messages.*
pub use Payloads.*
