-- ===== src/Tests/Schedules.antt =====
-- The threads of WPD_MTP_dataDlg.cpp side by side: an idle dialog, and a press of the button to the phone.
use shujugongxiang.Prelude.{◌≤◌, ◌≡◌, refl, true, false}
use shujugongxiang.Transfer.Threads.{on_bn_clicked_bt_tophone}
use shujugongxiang.Transfer.Threads.Schedule.{
  World, pressed, flag_set, press_tophone, set_flag, here, next, tophone_started, Reach-IsCounted,
}
use shujugongxiang.Tests.Databases.{world}
use shujugongxiang.Tests.Threads.{phone, config, dialog}

abbrev idle : World
idle = record {
  dialog = record dialog { thread_flag = false };
  pending = false;
  running = 0;
  closed = false;
}

abbrev first_press : World
first_press = pressed (on_bn_clicked_bt_tophone world phone config true idle.dialog) idle

first_started : first_press.pending ≡ true
unfolding pressed
first_started = tophone_started world phone config true idle.dialog

Reach-IsCounted_example :
    ((flag_set first_press).running ≤ 1)
    × ((flag_set first_press).closed ≡ false
        → (flag_set first_press).pending ≡ false
        → (flag_set first_press).dialog.thread_flag ≡ false
        → (flag_set first_press).running ≡ 0)
Reach-IsCounted_example =
    Reach-IsCounted world phone config idle (flag_set first_press) refl refl
      (next (next here (press_tophone idle true refl refl)) (set_flag first_press first_started))
