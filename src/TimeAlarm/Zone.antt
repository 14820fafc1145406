-- ===== src/TimeAlarm/Zone.antt =====
-- The time zone and the daylight savings status: time-alarm-service-interface/src/acpi_timestamp.rs,
-- and their storage in a `u32`, time-alarm-service/src/lib.rs (time_zone_data).
use embedded_services.Base.{
  ℕ, ◌+◌, ◌*◌, ◌/◌, ◌%◌, ◌^◌, ◌<◌, ◌≡◌, refl, Bool, true, false, Option, none, some, Result, ok,
  err, arith, leb, ltb, ◌==◌, if◌then◌else◌,
}
use embedded_services.Base.Int.{ℤ, pos, negsuc, IsI16, to_u16, of_u16, to_u16-lt, of_u16-to_u16}
use embedded_services.TimeAlarm.Interface.{DatetimeClockError, unsupported_datetime, Nvram}

-- AcpiDaylightSavingsTimeStatus, with its `u8` values.
pub data DaylightStatus : Type 0 where
  not_observed not_adjusted adjusted : DaylightStatus

unfoldable pub daylight_code : DaylightStatus → ℕ
daylight_code not_observed = 0
daylight_code not_adjusted = 1
daylight_code adjusted = 3

unfoldable pub daylight_of : ℕ → Option DaylightStatus
daylight_of w =
    if w == 0
    then some not_observed
    else if w == 1
    then some not_adjusted
    else if w == 3
    then some adjusted
    else none

-- AcpiTimeZoneOffset
pub record ZoneOffset : Type 0 where
  pub minutes_from_utc : ℤ

unfoldable pub zone_in_range : ℤ → Bool
zone_in_range (pos n) = leb n 1440
zone_in_range (negsuc n) = ltb n 1440

unfoldable pub new_offset : ℤ → Result ZoneOffset DatetimeClockError
unfolding zone_in_range
new_offset m =
    if zone_in_range m then ok (record { minutes_from_utc = m }) else err unsupported_datetime

pub data TimeZone : Type 0 where
  unknown : TimeZone
  minutes_from_utc : ZoneOffset → TimeZone

abbrev is_2047 : ℤ → Bool
is_2047 (pos n) = n == 2047
is_2047 (negsuc n) = false

abbrev known : Result ZoneOffset DatetimeClockError → Result TimeZone DatetimeClockError
known (ok o) = ok (minutes_from_utc o)
known (err e) = err e

-- TryFrom<i16> for AcpiTimeZone
unfoldable pub zone_of : ℤ → Result TimeZone DatetimeClockError
unfolding new_offset
zone_of m = if is_2047 m then ok unknown else known (new_offset m)

-- From<AcpiTimeZone> for i16
unfoldable pub zone_minutes : TimeZone → ℤ
zone_minutes unknown = pos 2047
zone_minutes (minutes_from_utc o) = o.minutes_from_utc

-- What `AcpiTimeZoneOffset::new` lets through: the field is private, so every zone is such.
abbrev pub IsZone : TimeZone → Type 0
IsZone unknown = Unit
IsZone (minutes_from_utc o) = zone_in_range o.minutes_from_utc ≡ true

-- Every zone comes back from its `i16`.
pub zone_of-zone_minutes : (z : TimeZone) → IsZone z → zone_of (zone_minutes z) ≡ ok z
unfolding zone_of zone_minutes
zone_of-zone_minutes unknown h = refl
zone_of-zone_minutes (minutes_from_utc o) h = go o.minutes_from_utc h
  where
    go :
        (m : ℤ)
        → zone_in_range m ≡ true
        → zone_of m ≡ ok (minutes_from_utc (record { minutes_from_utc = m }))
    go (pos n) h = ground arith
    go (negsuc n) h = ground arith

pub zone_minutes-IsI16 : (z : TimeZone) → IsZone z → IsI16 (zone_minutes z)
unfolding zone_minutes zone_in_range
zone_minutes-IsI16 unknown h = omega arith
zone_minutes-IsI16 (minutes_from_utc o) h = go o.minutes_from_utc h
  where
    go : (m : ℤ) → zone_in_range m ≡ true → IsI16 m
    go (pos n) h = ground arith
    go (negsuc n) h = ground arith

pub daylight_of-code : (d : DaylightStatus) → daylight_of (daylight_code d) ≡ some d
unfolding daylight_of daylight_code
daylight_of-code not_observed = refl
daylight_of-code not_adjusted = refl
daylight_of-code adjusted = refl

pub daylight_code-lt : (d : DaylightStatus) → daylight_code d < 256
unfolding daylight_code
daylight_code-lt not_observed = omega arith
daylight_code-lt not_adjusted = omega arith
daylight_code-lt adjusted = omega arith

-- RawTimeZoneData as a `u32`: the `i16` in the low half, then the status byte, then the padding.
abbrev raw_zone : ℤ → ℕ → ℕ
raw_zone tz dst = to_u16 tz + 2 ^ 16 * dst

abbrev zone_or_unknown : Result TimeZone DatetimeClockError → TimeZone
zone_or_unknown (ok z) = z
zone_or_unknown (err e) = unknown

abbrev or_not_observed : Option DaylightStatus → DaylightStatus
or_not_observed (some d) = d
or_not_observed none = not_observed

raw_zone_parts :
    (a d : ℕ)
    → a < 2 ^ 16
    → d < 256
    → ((a + 2 ^ 16 * d) % 2 ^ 16 ≡ a) × ((a + 2 ^ 16 * d) / 2 ^ 16 % 256 ≡ d)
raw_zone_parts a d h k = omega arith

module _ {S : Type 0} ⦃nv : Nvram S⦄ where
  unfoldable pub set_data : TimeZone → DaylightStatus → S → S
  set_data tz dst = nv.write (raw_zone (zone_minutes tz) (daylight_code dst))

  unfoldable pub get_data : S → TimeZone × DaylightStatus
  get_data s =
      let w = nv.read s in
      (
        zone_or_unknown (zone_of (of_u16 (w % 2 ^ 16))),
        or_not_observed (daylight_of (w / 2 ^ 16 % 256)),
      )

  -- What is stored of a time zone, of at most 1440 minutes either way or unknown, and of a daylight savings
  -- status is what is read.
  pub get_data-set_data :
      (z : TimeZone) (d : DaylightStatus) (s : S) → IsZone z → get_data (set_data z d s) ≡ (z, d)
  unfolding get_data set_data
  get_data-set_data z d s h =
      let i = zone_minutes-IsI16 z h in
      let m = to_u16 (zone_minutes z) in
      let p =
        raw_zone_parts m (daylight_code d) (to_u16-lt (zone_minutes z) i) (daylight_code-lt d) in
      rw
        (
          nv.read-write (m + 2 ^ 16 * daylight_code d) s,
          p.0,
          p.1,
          of_u16-to_u16 (zone_minutes z) i,
          zone_of-zone_minutes z h,
          daylight_of-code d,
        )
        refl
