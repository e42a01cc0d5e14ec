-- ===== src/Routing/BusinessHours.antt =====
-- Whether a department is open (apps/call-controller/src/routing/business-hours.ts).
pub mod Opening
use iziphone.Prelude.{
  ℕ, suc, ◌+◌, ◌-◌, ◌<◌, ◌≤◌, Bool, true, false, not, ◌&&◌, ◌||◌, Option, none, some, List, [], ◌∷◌,
  ◌==◌, ltb, leb, if◌then◌else◌, find,
}
use iziphone.Domain.{Text, OpenHoursRoutingType, ClosedHoursRoutingType}

-- A time of day `HH:MM`, in minutes since midnight: texts of this form compare as the times do.
abbrev pub TimeOfDay : Type 0
TimeOfDay = ℕ

pub record CachedBusinessHours : Type 0 where
  pub day_of_week : ℕ
  pub is_open : Bool
  pub open_time : Option TimeOfDay
  pub close_time : Option TimeOfDay

-- The calendar day of an instant, read in UTC.
pub record CalendarDay : Type 0 where
  pub year : ℕ
  pub month : ℕ
  pub day : ℕ

pub record CachedHoliday : Type 0 where
  pub name : Text
  pub date : CalendarDay
  pub is_recurring : Bool
  pub routing_type : ClosedHoursRoutingType
  pub routing_value : Option Text

pub record CachedRoutingSettings : Type 0 where
  pub timezone : Text
  pub is_24_hours : Bool
  pub open_hours_routing_type : OpenHoursRoutingType
  pub ring_duration : ℕ
  pub closed_hours_routing_type : ClosedHoursRoutingType
  pub closed_hours_external_number : Option Text
  pub voicemail_greeting_url : Option Text
  pub business_hours : List CachedBusinessHours
  pub holidays : List CachedHoliday

-- The instant on a zone's clock. The weekday is not computed from the date; `none` is a weekday that
-- the formatter did not name.
pub record WallClock : Type 0 where
  pub date : CalendarDay
  pub time : TimeOfDay
  pub day_of_week : Option ℕ

pub record HolidayRouting : Type 0 where
  pub name : Text
  pub routing_type : ClosedHoursRoutingType
  pub routing_value : Option Text

pub data BusinessHoursStatus : Type 0 where
  opened : BusinessHoursStatus
  outside_hours : BusinessHoursStatus
  on_holiday : HolidayRouting → BusinessHoursStatus

abbrev pub is_day : Option ℕ → ℕ → Bool
is_day none d = false
is_day (some w) d = d == w

abbrev pub same_month_day : CalendarDay → CalendarDay → Bool
same_month_day a b = a.month == b.month && a.day == b.day

abbrev pub falls_on : WallClock → CachedHoliday → Bool
falls_on local h =
    if h.is_recurring
    then same_month_day local.date h.date
    else local.date.year == h.date.year && same_month_day local.date h.date

-- `findHoliday`
abbrev pub find_holiday : WallClock → List CachedHoliday → Option CachedHoliday
find_holiday local = find (falls_on local)

abbrev pub find_schedule : WallClock → List CachedBusinessHours → Option CachedBusinessHours
find_schedule local = find (λ hours. is_day local.day_of_week hours.day_of_week)

-- The opening times of an open day, when it has both.
abbrev pub times_if_open :
    Bool → Option TimeOfDay → Option TimeOfDay → Option (TimeOfDay × TimeOfDay)
times_if_open true (some from) (some until) = some (from, until)
times_if_open _ _ _ = none

abbrev pub opening_times : Option CachedBusinessHours → Option (TimeOfDay × TimeOfDay)
opening_times none = none
opening_times (some hours) = times_if_open hours.is_open hours.open_time hours.close_time

abbrev pub status_in : TimeOfDay → Option (TimeOfDay × TimeOfDay) → BusinessHoursStatus
status_in time none = outside_hours
status_in time (some (from, until)) =
    if leb from time && ltb time until then opened else outside_hours

abbrev pub status_on :
    WallClock → List CachedBusinessHours → Option CachedHoliday → BusinessHoursStatus
status_on local hours (some h) =
    on_holiday
      (record { name = h.name; routing_type = h.routing_type; routing_value = h.routing_value })
status_on local hours none = status_in local.time (opening_times (find_schedule local hours))

-- The clock of each time zone, which the runtime's `Intl` keeps: an instant in ms, the zone's name.
abbrev pub Clock : Type 0
Clock = ℕ → Text → WallClock

-- `checkBusinessHours`
unfoldable pub check_business_hours : Clock → CachedRoutingSettings → ℕ → BusinessHoursStatus
check_business_hours wall_clock settings now =
    let local = wall_clock now settings.timezone in
    if settings.is_24_hours
    then opened
    else status_on local settings.business_hours (find_holiday local settings.holidays)
