-- ===== src/Sqlite.antt =====
-- `WPD_MTP_data/sqlite3/CSQLite.cpp`: the class through which the dialog works on the phone's database,
-- over the SQLite library.
pub mod Api
pub mod Wrapper
pub mod Query
