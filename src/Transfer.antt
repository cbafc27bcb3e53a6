-- ===== src/Transfer.antt =====
-- The way of the phone's database file to the PC and back, in `WPD_MTP_data/WPD_MTP_dataDlg.cpp`:
-- `BeginPhoneToPc`, `BeginPcToPhone`, `BeginRebackData`, and the threads that call them.
pub mod World
pub mod File
pub mod Threads
