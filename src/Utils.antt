-- ===== src/Utils.antt =====
-- client_src/utils.js.
pub mod Hash
pub mod Palette
pub mod Rng
pub mod Strings
pub mod Ui
pub mod Uuid
pub mod Cipher
pub mod Terrain
pub mod Config
