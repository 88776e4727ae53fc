-- ===== src/Finance/Periods.antt =====
-- Accounting periods: `resolve_period`, `update_period`, `close_period` and `reopen_period` of
-- backend/app/modules/finance/service.py, with the calendar of Python's `datetime.date`.
use lcs_system.Shared.{
  ℕ, ◌+◌, ◌-◌, ◌%◌, ltb, leb, ◌==◌, if◌then◌else◌, Bool, ◌&&◌, ◌||◌, not, Option, none, some, List,
  [], ◌∷◌, Outcome, ok, ◌>>=◌, or_raise, not_found, first_row,
}
use lcs_system.Finance.Models.{Date, AccountingPeriod, PeriodStatus, opened, closed, Books, Request}

abbrev pub date : ℕ → ℕ → ℕ → Date
date y m d = record { year = y; month = m; day = d }

-- `a <= b` on dates.
unfoldable pub leb_date : Date → Date → Bool
leb_date a b =
    ltb a.year b.year
    || (a.year == b.year && (ltb a.month b.month || (a.month == b.month && leb a.day b.day)))

abbrev is_leap : ℕ → Bool
is_leap y = (y % 4 == 0 && not (y % 100 == 0)) || y % 400 == 0

unfoldable pub days_in_month : ℕ → ℕ → ℕ
days_in_month y m =
    if m == 2
    then (if is_leap y then 29 else 28)
    else if m == 4 || m == 6 || m == 9 || m == 11
    then 30
    else 31

-- `d - timedelta(days=1)`
unfoldable pub day_before : Date → Date
unfolding days_in_month
day_before d =
    if ltb 1 d.day
    then date d.year d.month (d.day - 1)
    else if ltb 1 d.month
    then date d.year (d.month - 1) (days_in_month d.year (d.month - 1))
    else date (d.year - 1) 12 31

unfoldable pub month_end : Date → Date
unfolding day_before
month_end d = if d.month == 12 then date d.year 12 31 else day_before (date d.year (d.month + 1) 1)

abbrev pub covers : Date → AccountingPeriod → Bool
covers d p = leb_date p.start_date d && leb_date d p.end_date

unfoldable pub new_period : ℕ → Date → AccountingPeriod
unfolding month_end
new_period key d = record {
  id = key;
  period_year = d.year;
  period_month = d.month;
  start_date = date d.year d.month 1;
  end_date = month_end d;
  status = opened;
  closed_by_user_id = none;
  closed_at = none;
}

-- The period that covers a date, and the books with the month's period added if there was none.
unfoldable pub resolve_period : Date → Books → AccountingPeriod × Books
resolve_period d b = elim (first_row (covers d) b.periods) [
  | some p ↦ (p, b)
  | none ↦
      let p = new_period b.next_id d in
      (p, record b { periods = p ∷ b.periods; next_id = b.next_id + 1 })
]

abbrev pub find_period : ℕ → List AccountingPeriod → Option AccountingPeriod
find_period key = first_row (λ p. p.id == key)

abbrev pub modify_period :
    ℕ → (AccountingPeriod → AccountingPeriod) → List AccountingPeriod → List AccountingPeriod
modify_period key f [] = []
modify_period key f (p ∷ ps) = if p.id == key then f p ∷ ps else p ∷ modify_period key f ps

abbrev stamp_closed : Request → AccountingPeriod → AccountingPeriod
stamp_closed r p = record p {
  status = closed;
  closed_at = some r.now;
  closed_by_user_id = some r.user_id;
}

abbrev clear_closure : AccountingPeriod → AccountingPeriod
clear_closure p = record p { closed_at = none; closed_by_user_id = none }

unfoldable pub close_period : Request → ℕ → Books → Outcome Books
close_period r key b = do
  p ← or_raise (find_period key b.periods) not_found
  ok (record b { periods = modify_period key (stamp_closed r) b.periods })

unfoldable pub reopen_period : ℕ → Books → Outcome Books
reopen_period key b = do
  p ← or_raise (find_period key b.periods) not_found
  ok (record b {
    periods = modify_period key (λ q. clear_closure (record q { status = opened })) b.periods;
  })

-- The status that a validated payload names, if any.
abbrev write_status : PeriodStatus → AccountingPeriod → AccountingPeriod
write_status opened p = clear_closure (record p { status = opened })
write_status s p = record p { status = s }

abbrev write_given : Option PeriodStatus → AccountingPeriod → AccountingPeriod
write_given none p = p
write_given (some s) p = write_status s p

unfoldable pub update_period : ℕ → Option PeriodStatus → Books → Outcome Books
update_period key status b = do
  p ← or_raise (find_period key b.periods) not_found
  ok (record b { periods = modify_period key (write_given status) b.periods })
