-- ===== src/Settings/Restored.antt =====
-- For each section of the settings, what comes back from a file into which it was saved.
pub mod Written
pub mod Gui
pub mod General
pub mod Tuning
pub mod Protocol
pub mod Transfer
pub mod Defaults
