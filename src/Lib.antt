-- ===== src/Lib.antt =====
-- The synchronisation of inspection data between a server and a phone (xiezhaoHi/shujugongxiang), and
-- the licence check of the program.
--
-- The dialog of WPD_MTP_data/WPD_MTP_dataDlg.cpp copies the phone's SQLite file to the computer,
-- exchanges the tables of users, devices, tasks and records with the server's MySQL database, and
-- copies the file back. A run (`BeginSwitchData`) connects, deletes what is marked for deletion,
-- collects the ids of the chosen area or device and of all below it, cuts them into arrays, calls the
-- operation of each table on each array, and sends the statements that mark rows of the server as
-- synchronised.
--
-- - Prelude and its children: Boolean tests, lists, 32-bit words over the native numbers.
-- - Text: MyStringSplit (Text/Split), GetArrayItems (Text/Chunks), the quoted lists of ids and the
--   conversion of fields for SQL (Text/Escape).
-- - Sync/World: what the dialog asks of the code around it. Each call is recorded in `Session.calls`
--   and answered by an `Env` that knows all calls made before; `Session.updates` is m_updateMysqlData.
--   Sync/Phone picks the calls that open, close or change the phone's database.
-- - Sync/Statements: UpdateMysqlDB. Sync/Record, Sync/Task, Sync/User, Sync/Clear: the functions
--   Synchrodata_work_record, _work_task, _sys_user and _clear_record. Sync/Removal: DeleteAreaAndDevice.
--   Sync/Selection: FindChildTypeID and FindChildID. Sync/Switch: BeginSwitchData, over a record of the
--   operations on the tables; Sync/Run fills that record.
-- - Sync/Tables: Synchrodata_work_template, _work_type, _device_info and _areas, by the steps that they
--   share. Synchrodata_device_type returns at its first line.
-- - Transfer: how the database file comes from the device and goes back (Transfer/File), and the threads
--   that do it (Transfer/Threads). The device interface, the file dialog and the clock are parameters
--   (Transfer/World). Transfer/Threads/Schedule lets the buttons, the threads and OnClose go on in any
--   order; OnClose ends the dialog, and no button is pressed after it. It is the release build, and
--   m_radioChoose does not change during a run.
-- - Sqlite: WPD_MTP_data/sqlite3/CSQLite.cpp over the functions of SQLite (Sqlite/Api): the operations of
--   the wrapper in Sqlite/Wrapper, QuickSelectDataCount and QuickSelectData in Sqlite/Query.
-- - Mysql: WPD_MTP_data/mysql/MyDataBase.cpp over the functions of the MySQL client.
-- - Dates: the handlers of the two dates of a deletion.
-- - Control: the tree control of areas and devices, which Init_areas_tree fills from the server's tables
--   with FindChildTree and FindChildTreeType; its items are those of Sync/Selection, its caches those from
--   which Cascade/Init builds the deletion tree.
-- - Settings: InitConfig, config.ini as a parameter. Backup: DeleteDirectory and OnClose.
-- - Log: WPD_MTP_data/logrecord/LogRecord.cpp; the file system and the clock are parameters.
-- - Cascade: deleteTree, CreateDeleteTreeStructDevices (Cascade/Build), DeleteFindID,
--   DeleteAreaAndDeviceFindID, ClearDeleteTreeStruct. Cascade/Init: InitDeleteTreeStruct with the
--   functions that build the areas and the devices; Sync/Removal/Rows composes it with the search and the
--   arrays of DeleteAreaAndDevice.
-- - Md5: WPD_MTP_data/verity/MyMd5.cpp, with RFC 1321 in Md5/Spec. Verify: MyVerify.cpp beside it.
-- - Tests: the code at concrete inputs.
--
-- Texts and byte strings are lists of numbers. `size_t` and `uint32` have 32 bits. Runs of blanks
-- inside SQL texts are written as one. Reading past the columns of a row gives the empty text, where
-- the source raises an error that its `catch (...)` turns into FALSE; exceptions are not modelled.
-- The null pointer that Synchrodata_clear_record may read is the result `none`. In the literals of the
-- server a backslash escapes a quote, and two quotes in a row stand for one.
-- The construction of the deletion tree has fuel for its depth, which is enough above the depth of the
-- node if parents have no cycle; so do the whole tree of
-- Cascade/Init and the items of Control. A CMap is the list of its entries. MyStringSplit recurses on a
-- shorter text, so fuel above its length is enough; `transform_blocks` has the length of its input as
-- fuel, which steps by 64. The loop of QuickSelectData needs as much fuel as there are rows to set, and
-- one more; the loops over the answers of SQLite and of the MySQL client need more fuel than there are
-- answers.
--
-- Not modelled: painting, message boxes, icons, the choice of a device and the messages of its arrival;
-- InitDeviceTree and InitWorkTypeMap, which nothing reaches; MyAec.cpp, which calls a cryptographic
-- library; the samples of the device interface (ContentTransfer.cpp and its like), which only call it;
-- and exceptions.
pub mod Prelude
pub mod Md5
pub mod Text
pub mod Sync
pub mod Sqlite
pub mod Transfer
pub mod Mysql
pub mod Log
pub mod Dates
pub mod Control
pub mod Backup
pub mod Settings
pub mod Verify
pub mod Cascade
pub mod Tests
