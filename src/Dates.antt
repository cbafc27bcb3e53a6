-- ===== src/Dates.antt =====
-- The span of dates of a deletion: the handlers `OnDtnDatetimechangeDatetimepickerEnd` and
-- `OnDtnDatetimechangeDatetimepickerBegin` of `WPD_MTP_data/WPD_MTP_dataDlg.cpp`. A time is its seconds.
pub mod Span
use shujugongxiang.Prelude.{
  ℕ, Bool, true, false, ◌||◌, not, List, [], ◌∷◌, ◌++◌, ltb, if◌then◌else◌,
}
use shujugongxiang.Text.Defs.{Text, codes}

-- The two dates, the buttons for the deletion and for taking it back, and what was shown; the static
-- `bMoCalOk` of each handler.
pub record Picker : Type 0 where
  pub begin_time : ℕ
  pub end_time : ℕ
  pub bt_begin_clear : Bool
  pub bt_begin_reback : Bool
  pub logs : List Text
  pub mo_cal_ok_begin : Bool
  pub mo_cal_ok_end : Bool

abbrev pub set_buttons : Bool → Picker → Picker
set_buttons b s = record s { bt_begin_clear = b; bt_begin_reback = b }

-- The times are compared if `ok`.
pub check_end : ℕ → Bool → Picker → Picker
check_end now ok s =
    let wrong = ltb s.end_time s.begin_time || ltb now s.end_time in
    let text = codes "结束时间必须大于等于开始时间,并且小于等于当前时间!" in
    let shown = set_buttons false (record s { logs = s.logs ++ (text ∷ []) }) in
    if ok then (if wrong then shown else set_buttons true s) else s

-- With the calendar open, the message comes twice: `calendar` says that it is, `now` is the time.
pub on_datetime_change_end : ℕ → Bool → Picker → Picker
on_datetime_change_end now calendar s =
    let ok = if calendar then not s.mo_cal_ok_end else s.mo_cal_ok_end in
    check_end now ok (record s { mo_cal_ok_end = ok })

pub check_begin : ℕ → Bool → Picker → Picker
check_begin now ok s =
    let wrong = ltb s.end_time s.begin_time || (ltb now s.begin_time || ltb now s.end_time) in
    let text = codes "开始时间必须小于等于结束时间,\r\n并且小于等于当前时间!" in
    let shown = set_buttons false (record s { logs = s.logs ++ (text ∷ []) }) in
    if ok then (if wrong then shown else set_buttons true s) else s

pub on_datetime_change_begin : ℕ → Bool → Picker → Picker
on_datetime_change_begin now calendar s =
    let ok = if calendar then not s.mo_cal_ok_begin else s.mo_cal_ok_begin in
    check_begin now ok (record s { mo_cal_ok_begin = ok })
