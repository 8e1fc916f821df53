-- ===== src/Tests.antt =====
-- Runs of the models at concrete inputs, and the theorems applied there.
mod Inputs
mod States
mod Scores
mod Detections
mod Guards
mod Lines
mod Bans
mod Clouds
mod Formats
mod Blocklists
mod Configs
mod Patterns
mod Webs
