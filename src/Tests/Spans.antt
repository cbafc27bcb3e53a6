-- ===== src/Tests/Spans.antt =====
-- The dates of a deletion in WPD_MTP_dataDlg.cpp, with the calendar open.
use shujugongxiang.Prelude.{◌≡◌, refl, true, []}
use shujugongxiang.Dates.{Picker}
use shujugongxiang.Dates.Span.{Agrees, change_end, change_begin, date_changed_lem}

abbrev picker : Picker
picker = record {
  begin_time = 100;
  end_time = 200;
  bt_begin_clear = true;
  bt_begin_reback = true;
  logs = [];
  mo_cal_ok_begin = true;
  mo_cal_ok_end = true;
}

date_changed_lem_example :
    Agrees 150 picker (change_end 150 true picker)
    × ((change_end 150 true picker).mo_cal_ok_end ≡ true)
    × Agrees 150 picker (change_begin 150 true picker)
    × ((change_begin 150 true picker).mo_cal_ok_begin ≡ true)
date_changed_lem_example = date_changed_lem 150 true picker refl refl
