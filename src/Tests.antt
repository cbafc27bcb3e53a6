-- ===== src/Tests.antt =====
-- Runs of the modelled code of `WPD_MTP_data/` on concrete inputs, and the theorems at such inputs.
pub mod Digests
pub mod Texts
pub mod Databases
mod Tables
mod Library
pub mod Threads
mod Client
mod Logs
mod Spans
mod Controls
mod Schedules
mod Files
pub mod Trees
pub mod Licences
pub mod Removals
