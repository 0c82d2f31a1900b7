-- ===== src/Grecord.antt =====
-- The ASI plugin inside the game (grecord/src, grecord/include/grecord).
pub mod BitReader
pub mod Logic
pub mod Plugin
pub mod IpcClient
pub mod UiConfig
pub mod Game
pub mod Hud
pub mod Links
pub mod Worker
pub mod Window
mod Tests
mod PluginTests
mod ClientTests
