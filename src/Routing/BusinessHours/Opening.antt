-- ===== src/Routing/BusinessHours/Opening.antt =====
-- When a department is open (business-hours.ts).
use iziphone.Prelude.{
  ℕ, Bool, true, false, not, ◌&&◌, ◌||◌, ◌≡◌, refl, inl, inr, Option, none, some, List, [], ◌∷◌,
  arith, if◌then◌else◌, Bool-cases, any,
}
use iziphone.Prelude.{leb, ltb}
use iziphone.Routing.BusinessHours.{
  Clock, WallClock, CachedRoutingSettings, CachedBusinessHours, CachedHoliday, BusinessHoursStatus,
  opened, outside_hours, on_holiday, falls_on, is_day, check_business_hours, TimeOfDay, status_on,
  status_in, times_if_open, find_holiday,
}

abbrev pub is_opened : BusinessHoursStatus → Bool
is_opened opened = true
is_opened outside_hours = false
is_opened (on_holiday h) = false

-- The time is at or after the opening, and before the closing.
abbrev pub between : Option TimeOfDay → Option TimeOfDay → TimeOfDay → Bool
between none until time = false
between (some from) none time = false
between (some from) (some until) time = leb from time && ltb time until

-- The weekly schedule is open: the first entry for the weekday says so.
abbrev pub scheduled : WallClock → List CachedBusinessHours → Bool
scheduled local [] = false
scheduled local (h ∷ hs) =
    if is_day local.day_of_week h.day_of_week
    then h.is_open && between h.open_time h.close_time local.time
    else scheduled local hs

-- What the schedule answers on a day that is no holiday.
scheduled_lem :
    (local : WallClock) (hours : List CachedBusinessHours)
    → is_opened (status_on local hours none) ≡ scheduled local hours
scheduled_lem local [] = refl
scheduled_lem local (h ∷ hs) = elim (Bool-cases (is_day local.day_of_week h.day_of_week)) [
  | inl e ↦ rw e (day_lem h.is_open h.open_time h.close_time local.time)
  | inr e ↦ rw e (scheduled_lem local hs)
]
  where
    day_lem :
        (o : Bool) (from until : Option TimeOfDay) (time : TimeOfDay)
        → is_opened (status_in time (times_if_open o from until)) ≡ (o && between from until time)
    day_lem true none until time = refl
    day_lem true (some from) none time = refl
    day_lem true (some from) (some until) time = ground arith
    day_lem false from until time = refl

holiday_lem :
    (local : WallClock) (hours : List CachedBusinessHours) (holidays : List CachedHoliday)
    → is_opened (status_on local hours (find_holiday local holidays))
      ≡ (not (any (falls_on local) holidays) && scheduled local hours)
holiday_lem local hours [] = scheduled_lem local hours
holiday_lem local hours (h ∷ hs) = elim (Bool-cases (falls_on local h)) [
  | inl e ↦ rw e
  | inr e ↦ rw e (holiday_lem local hours hs)
]

-- A department is open exactly when it is always open, or when no holiday falls on the day and the
-- first entry of the schedule for the weekday is open, has both times, and holds the time of day from
-- its opening on and before its closing; day, weekday and time are those on the department's clock.
pub check_business_hours-opened :
    (clock : Clock) (settings : CachedRoutingSettings) (now : ℕ)
    → let local = clock now settings.timezone in
      is_opened (check_business_hours clock settings now) ≡ (
        settings.is_24_hours
        || (not (any (falls_on local) settings.holidays)
            && scheduled local settings.business_hours))
unfolding check_business_hours
check_business_hours-opened clock settings now =
    ground
      (arith, holiday_lem (clock now settings.timezone) settings.business_hours settings.holidays)
