-- ===== src/Dates/Span.antt =====
-- When the handlers of the dates in WPD_MTP_dataDlg.cpp let a deletion begin.
use shujugongxiang.Prelude.{
  ℕ, ◌≡◌, refl, Bool, true, false, ◌&&◌, ◌||◌, not, leb, ltb, Bool-cases, inl, inr, if◌then◌else◌,
  arith,
}
use shujugongxiang.Dates.{
  Picker, check_end, check_begin, on_datetime_change_end, on_datetime_change_begin,
}

-- The span is in order and not in the future.
abbrev pub in_order : ℕ → Picker → Bool
in_order now s = leb s.begin_time s.end_time && leb s.end_time now

order_end : (b e now : ℕ) → (ltb e b || ltb now e) ≡ not (leb b e && leb e now)
order_end b e now = ground arith

order_begin : (b e now : ℕ) → (ltb e b || (ltb now b || ltb now e)) ≡ not (leb b e && leb e now)
order_begin b e now = ground arith

-- Both buttons can be pressed exactly if the span is in order.
abbrev pub Agrees : ℕ → Picker → Picker → Type 0
Agrees now s result =
    (result.bt_begin_clear ≡ in_order now s) × (result.bt_begin_reback ≡ in_order now s)

check_end-Agrees :
    (now : ℕ) (s : Picker)
    → Agrees now s (check_end now true s) × ((check_end now true s).mo_cal_ok_end ≡ s.mo_cal_ok_end)
unfolding check_end
check_end-Agrees now s = elim (Bool-cases (in_order now s)) [
  | inl right ↦ rw (order_end s.begin_time s.end_time now, right) ((refl, refl), refl)
  | inr wrong ↦ rw (order_end s.begin_time s.end_time now, wrong) ((refl, refl), refl)
]

check_begin-Agrees :
    (now : ℕ) (s : Picker)
    → Agrees now s (check_begin now true s)
      × ((check_begin now true s).mo_cal_ok_begin ≡ s.mo_cal_ok_begin)
unfolding check_begin
check_begin-Agrees now s = elim (Bool-cases (in_order now s)) [
  | inl right ↦ rw (order_begin s.begin_time s.end_time now, right) ((refl, refl), refl)
  | inr wrong ↦ rw (order_begin s.begin_time s.end_time now, wrong) ((refl, refl), refl)
]

-- One change of a date: one message, and two with the calendar open.
abbrev pub change_end : ℕ → Bool → Picker → Picker
change_end now calendar s =
    if calendar
    then on_datetime_change_end now true (on_datetime_change_end now true s)
    else on_datetime_change_end now false s

abbrev pub change_begin : ℕ → Bool → Picker → Picker
change_begin now calendar s =
    if calendar
    then on_datetime_change_begin now true (on_datetime_change_begin now true s)
    else on_datetime_change_begin now false s

change_end-Agrees :
    (now : ℕ) (calendar : Bool) (s : Picker)
    → s.mo_cal_ok_end ≡ true
    → Agrees now s (change_end now calendar s) × ((change_end now calendar s).mo_cal_ok_end ≡ true)
unfolding on_datetime_change_end check_end
change_end-Agrees now false s h = rw h (check_end-Agrees now (record s { mo_cal_ok_end = true }))
change_end-Agrees now true s h = rw h (check_end-Agrees now (record s { mo_cal_ok_end = true }))

change_begin-Agrees :
    (now : ℕ) (calendar : Bool) (s : Picker)
    → s.mo_cal_ok_begin ≡ true
    → Agrees now s (change_begin now calendar s)
      × ((change_begin now calendar s).mo_cal_ok_begin ≡ true)
unfolding on_datetime_change_begin check_begin
change_begin-Agrees now false s h =
    rw h (check_begin-Agrees now (record s { mo_cal_ok_begin = true }))
change_begin-Agrees now true s h =
    rw h (check_begin-Agrees now (record s { mo_cal_ok_begin = true }))

-- After a change of either date, both buttons can be pressed exactly if the begin is not after the end
-- and the end is not in the future, if the handlers' flags are set, and they
-- stay set; two messages come
-- while the calendar is open, both at the same time.
pub date_changed_lem :
    (now : ℕ) (calendar : Bool) (s : Picker)
    → s.mo_cal_ok_end ≡ true
    → s.mo_cal_ok_begin ≡ true
    → Agrees now s (change_end now calendar s)
      × ((change_end now calendar s).mo_cal_ok_end ≡ true)
      × Agrees now s (change_begin now calendar s)
      × ((change_begin now calendar s).mo_cal_ok_begin ≡ true)
date_changed_lem now calendar s end_ok begin_ok =
    let (agrees_end, end_set) = change_end-Agrees now calendar s end_ok in
    let (agrees_begin, begin_set) = change_begin-Agrees now calendar s begin_ok in
    (agrees_end, end_set, agrees_begin, begin_set)
