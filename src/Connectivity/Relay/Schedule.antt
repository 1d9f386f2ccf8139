-- ===== src/Connectivity/Relay/Schedule.antt =====
-- crates/connectivity/relay/schedule.rs: the weekly schedule of a relay. Days are 0 for Sunday to
-- 6 for Saturday, times are minutes of the day. The standard library's parsing of a u16 from
-- decimal digits is `parse_u16`.
use p2p_net.Prelude.{
  ℕ, ◌+◌, ◌-◌, ◌*◌, ◌/◌, ◌%◌, Bool, true, false, not, ◌&&◌, ◌||◌, Option, none, some, List, [], ◌∷◌,
  map, ltb, leb, nat_beq, if◌then◌else◌, any, is_empty, nat_eq, list_eq, option_eq,
}
use p2p_net.Prelude.Assoc.{mem}
use p2p_net.Common.Text.{Text, codes, trim}
use p2p_net.Common.Error.{config_error, Result, ok, ◌>>◌, refuse}

pub record RelayWindow : Type 0 where
  pub days : List Text
  pub start : Text
  pub end : Text

pub record RelaySchedule : Type 0 where
  pub enabled : Bool
  pub windows : List RelayWindow

-- `str::to_ascii_lowercase`.
abbrev pub to_ascii_lowercase : Text → Text
to_ascii_lowercase s = map (λ c. if leb b'A' c && leb c b'Z' then c + 32 else c) s

abbrev pub names_all : List Text
names_all = codes "all" ∷ codes "*" ∷ []

-- The names of the days, each with its number.
abbrev pub day_names : List (ℕ × List Text)
day_names =
    (0, codes "sun" ∷ codes "sunday" ∷ [])
    ∷ (1, codes "mon" ∷ codes "monday" ∷ [])
    ∷ (2, codes "tue" ∷ codes "tues" ∷ codes "tuesday" ∷ [])
    ∷ (3, codes "wed" ∷ codes "wednesday" ∷ [])
    ∷ (4, codes "thu" ∷ codes "thur" ∷ codes "thurs" ∷ codes "thursday" ∷ [])
    ∷ (5, codes "fri" ∷ codes "friday" ∷ [])
    ∷ (6, codes "sat" ∷ codes "saturday" ∷ [])
    ∷ []

-- The arms of the match on a name, in their order.
unfoldable pub name_matches : Text → List (ℕ × List Text) → ℕ → Bool
name_matches name [] day = false
name_matches name ((number, names) ∷ rest) day =
    let later = name_matches name rest day in if mem name names then nat_beq day number else later

unfoldable pub matches_raw : ℕ → Text → Bool
matches_raw day raw =
    let name = to_ascii_lowercase (trim raw) in
    if mem name names_all then true else name_matches name day_names day

unfoldable pub matches_day : RelayWindow → ℕ → Bool
matches_day w day = any (matches_raw day) w.days

abbrev pub valid_names : List Text
valid_names =
    codes "all"
    ∷ codes "*"
    ∷ codes "sun"
    ∷ codes "sunday"
    ∷ codes "mon"
    ∷ codes "monday"
    ∷ codes "tue"
    ∷ codes "tues"
    ∷ codes "tuesday"
    ∷ codes "wed"
    ∷ codes "wednesday"
    ∷ codes "thu"
    ∷ codes "thur"
    ∷ codes "thurs"
    ∷ codes "thursday"
    ∷ codes "fri"
    ∷ codes "friday"
    ∷ codes "sat"
    ∷ codes "saturday"
    ∷ []

unfoldable pub is_valid_day : Text → Bool
is_valid_day raw = mem (to_ascii_lowercase (trim raw)) valid_names

-- `split(':')`: the parts before, between and behind the colons.
abbrev pub cons_part : ℕ → List Text → List Text
cons_part c [] = (c ∷ []) ∷ []
cons_part c (part ∷ parts) = (c ∷ part) ∷ parts

unfoldable pub split_colon : Text → List Text
split_colon [] = [] ∷ []
split_colon (c ∷ s) =
    let parts = split_colon s in if nat_beq c b':' then [] ∷ parts else cons_part c parts

module _ (parse_u16 : Text → Option ℕ) where
  abbrev pub minute_of : Option ℕ → Option ℕ → Bool → Option ℕ
  minute_of none minute more = none
  minute_of (some hour) none more = none
  minute_of (some hour) (some minute) more =
      if more || leb 24 hour || leb 60 minute then none else some (hour * 60 + minute)

  abbrev pub parse_parts : List Text → Option ℕ
  parse_parts [] = none
  parse_parts (hour ∷ []) = none
  parse_parts (hour ∷ minute ∷ rest) =
      minute_of (parse_u16 hour) (parse_u16 minute) (not (is_empty rest))

  unfoldable pub parse_hhmm : Text → Option ℕ
  parse_hhmm value = parse_parts (split_colon value)

  abbrev pub is_time : Option ℕ → Bool
  is_time none = false
  is_time (some m) = true

  unfoldable pub validate_days : List Text → Result (Unit {0})
  validate_days [] = ok tt
  validate_days (day ∷ rest) =
      refuse (not (is_valid_day day))
        (config_error "relay.schedule.windows contains an invalid day")
      >> validate_days rest

  unfoldable pub validate_window : RelayWindow → Result (Unit {0})
  validate_window w =
      refuse (is_empty w.days)
        (config_error "relay.schedule.windows entries must include at least one day")
      >> validate_days w.days
      >> refuse (not (is_time (parse_hhmm w.start)))
          (config_error "relay.schedule.windows contains an invalid start time")
      >> refuse (not (is_time (parse_hhmm w.end)))
          (config_error "relay.schedule.windows contains an invalid end time")

  unfoldable pub validate_windows : List RelayWindow → Result (Unit {0})
  validate_windows [] = ok tt
  validate_windows (w ∷ rest) = validate_window w >> validate_windows rest

  abbrev pub validate_schedule : RelaySchedule → Result (Unit {0})
  validate_schedule s = validate_windows s.windows

  -- `matches`, for the times of the window that are found.
  abbrev pub matches_times : RelayWindow → Option ℕ → Option ℕ → ℕ → ℕ → ℕ → Bool
  matches_times w none end day previous_day minute_of_day = false
  matches_times w (some start) none day previous_day minute_of_day = false
  matches_times w (some start) (some end) day previous_day minute_of_day =
      if nat_beq start end
      then matches_day w day
      else if ltb start end
      then matches_day w day && leb start minute_of_day && ltb minute_of_day end
      else (matches_day w day && leb start minute_of_day)
        || (matches_day w previous_day && ltb minute_of_day end)

  unfoldable pub matches_window : RelayWindow → ℕ → ℕ → ℕ → Bool
  matches_window w day previous_day minute_of_day =
      matches_times w (parse_hhmm w.start) (parse_hhmm w.end) day previous_day minute_of_day

  unfoldable pub is_open_at_utc : RelaySchedule → ℕ → ℕ → Bool
  is_open_at_utc s day minute_of_day =
      let previous_day = if nat_beq day 0 then 6 else day - 1 in
      if not s.enabled
      then true
      else if is_empty s.windows || ltb 6 day || leb 1_440 minute_of_day
      then false
      else any (λ w. matches_window w day previous_day minute_of_day) s.windows

  -- `is_open_now_utc` at a time in seconds since the epoch; `none` is a clock before it.
  abbrev pub is_open_now_utc : RelaySchedule → Option ℕ → Bool
  is_open_now_utc s none = not s.enabled
  is_open_now_utc s (some secs) =
      if not s.enabled
      then true
      else is_open_at_utc s ((secs / 86_400 + 4) % 7) (((secs % 86_400) / 60) % 65_536)
