-- ===== src/Transfer/Threads/Schedule/Stuck.antt =====
-- A synchronisation that ends before its handler in WPD_MTP_dataDlg.cpp has set `m_threadFlag`.
use shujugongxiang.Prelude.{◌≡◌, Bool, true, false}
use shujugongxiang.Transfer.Threads.Schedule.{World}

-- No synchronisation runs or is being started, and the flag is set as long as the dialog is there.
pub record IsStuck (w : World) : Type 0 where
  pub flag : w.closed ≡ false → w.dialog.thread_flag ≡ true
  pub free : w.pending ≡ false
  pub none_runs : w.running ≡ 0
