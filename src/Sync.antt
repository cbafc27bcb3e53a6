-- ===== src/Sync.antt =====
-- The synchronisation of `WPD_MTP_data/WPD_MTP_dataDlg.cpp` between the server's MySQL database and
-- the copy of the phone's SQLite database.
pub mod World
pub mod Phone
pub mod Statements
pub mod Record
pub mod User
pub mod Clear
pub mod Task
pub mod Removal
pub mod Selection
pub mod Switch
pub mod Tables
pub mod Run
