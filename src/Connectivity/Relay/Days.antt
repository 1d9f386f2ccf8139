-- ===== src/Connectivity/Relay/Days.antt =====
-- The names of days in a relay's schedule: the check of a schedule and its evaluation know the
-- same names.
use p2p_net.Prelude.{
  ℕ, ◌≡◌, true, List, [], ◌∷◌, arith, if◌then◌else◌, any, nat_eq, list_eq, option_eq,
}
use p2p_net.Prelude.Assoc.{mem}
use p2p_net.Common.Text.{Text, trim}
use p2p_net.Connectivity.Relay.Schedule.{
  matches_raw, is_valid_day, name_matches, day_names, names_all, valid_names, to_ascii_lowercase,
}

-- The days on which a name is matched, from Sunday to Saturday.
abbrev week : List ℕ
week = 0 ∷ 1 ∷ 2 ∷ 3 ∷ 4 ∷ 5 ∷ 6 ∷ []

name-week :
    (name : Text)
    → mem name valid_names
      ≡ any (λ day. if mem name names_all then true else name_matches name day_names day) week
unfolding mem any name_matches
name-week name = ground arith

-- The check of a schedule accepts a day exactly if it is open on some day of the week: it knows
-- every name that the schedule matches, and no other.
pub is_valid_day-matches_raw :
    (raw : Text) → is_valid_day raw ≡ any (λ day. matches_raw day raw) week
unfolding is_valid_day matches_raw
is_valid_day-matches_raw raw = name-week (to_ascii_lowercase (trim raw))
