-- ===== src/Server.antt =====
-- The game server: config.ts, protocol.ts, utils.ts, state.ts, game.ts, ws.ts, bot.ts, storage.ts,
-- auth.ts.
pub mod Utils
pub mod Protocol
pub mod Cipher
pub mod State
pub mod Flight
pub mod Game
pub mod Shots
pub mod Gateway
pub mod Log
pub mod Sound
pub mod Mirror
pub mod Search
pub mod Victim
pub mod Limits
pub mod Names
pub mod Revive
pub mod Bots
pub mod Storage
pub mod Auth
pub mod Dedupe
