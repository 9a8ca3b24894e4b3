-- ===== src/Settings.antt =====
-- `Configuration` (src/configuration.h, src/configuration.cpp): the settings of the program, the file
-- that keeps them, and the histories of paths. The registry of Windows is left out.
pub mod Reading
pub mod Gui
pub mod General
pub mod Tuning
pub mod Protocol
pub mod Transfer
pub mod Defaults
pub mod File
pub mod Histories
pub mod Disk
pub mod Restored
pub mod Recent
pub mod Usable
pub mod RoundTrip
pub mod Tests
