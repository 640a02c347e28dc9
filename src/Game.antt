-- ===== src/Game.antt =====
-- client_src/init.js: what the keys, the mouse, the chat box and the frame loop do to the shared
-- state. Other children of this module prove what any play keeps.
mod State
pub mod Input
pub mod Draw
pub mod Clicks
pub mod Play
pub mod Rate
pub mod Balls
pub mod Consistent
unfoldable pub use State.*
