-- ===== src/Stamp.antt =====
-- Instants, and the order in which SQLite compares them. internal/storage/sqlite writes every time
-- by `Format(time.RFC3339Nano)` in UTC and compares the texts (`expires_at > ?`). An instant is its
-- nanoseconds since year 1, before the year 10000; the text is modelled rune by rune, the date from
-- the days of the Gregorian calendar: the layout drops the trailing zeros of the fraction, and the
-- dot with the last of them.
pub mod Order
use intermute.Base.{
  ℕ, zero, suc, ◌+◌, ◌/◌, ◌%◌, ◌*◌, ◌-◌, Bool, true, false, not, List, [], ◌∷◌, ◌++◌, ltb, ◌==◌,
  if◌then◌else◌, Text, ◌≡◌, refl, codes,
}

abbrev pub second : ℕ
second = 1_000_000_000

-- The last `k` decimal digits of `n`, the first one first.
digits : ℕ → ℕ → Text
digits zero n = []
digits (suc k) n = digits k (n / 10) ++ (b'0' + n % 10) ∷ []

trim_zeros : Text → Text
trim_zeros [] = []
trim_zeros (d ∷ ds) = elim (trim_zeros ds) [
  | [] ↦ if d == b'0' then [] else d ∷ []
  | e ∷ es ↦ d ∷ e ∷ es
]

-- What stands behind the seconds.
unfoldable pub stamp_tail : ℕ → Text
unfolding digits trim_zeros
stamp_tail nanos = elim (trim_zeros (digits 9 nanos)) [
  | [] ↦ b'Z' ∷ []
  | d ∷ ds ↦ b'.' ∷ (d ∷ ds ++ b'Z' ∷ [])
]

-- SQLite's BINARY order of texts.
unfoldable pub text_lt : Text → Text → Bool
text_lt [] [] = false
text_lt [] (y ∷ t) = true
text_lt (x ∷ s) [] = false
text_lt (x ∷ s) (y ∷ t) =
    let rest = text_lt s t in if ltb x y then true else if x == y then rest else false

-- Year, month and day, from the days since 1 January of year 1. Years are counted from March here,
-- in cycles of 400 years, which have 146097 days.
unfoldable pub civil : ℕ → ℕ × ℕ × ℕ
civil days =
    let era = (days + 306) / 146_097 in
    let day_of_era = (days + 306) % 146_097 in
    let year_of_era =
      (day_of_era + day_of_era / 36_524 - day_of_era / 1460 - day_of_era / 146_096) / 365 in
    let day_of_year = day_of_era + year_of_era / 100 - 365 * year_of_era - year_of_era / 4 in
    let month = (5 * day_of_year + 2) / 153 in
    let day = day_of_year + 1 - (153 * month + 2) / 5 in
    let year = 400 * era + year_of_era in
    if ltb month 10 then (year, month + 3, day) else (year + 1, month - 9, day)

-- "2006-01-02T15:04:05", from the seconds since year 1.
unfoldable pub seconds_text : ℕ → Text
unfolding civil digits
seconds_text n =
    let (year, month, day) = civil (n / 86_400) in
    digits 4 year
    ++ b'-'
      ∷ (digits 2 month
          ++ b'-'
            ∷ (digits 2 day
                ++ b'T'
                  ∷ (digits 2 (n / 3600 % 24)
                      ++ b':' ∷ (digits 2 (n / 60 % 60) ++ b':' ∷ digits 2 (n % 60)))))

unfoldable pub stamp_text : ℕ → Text
unfolding seconds_text stamp_tail
stamp_text a = seconds_text (a / second) ++ stamp_tail (a % second)

-- `a < b` on the two texts.
unfoldable pub stamp_lt : ℕ → ℕ → Bool
unfolding stamp_text text_lt
stamp_lt a b = text_lt (stamp_text a) (stamp_text b)

-- `a <= b` on the two texts.
abbrev pub stamp_le : ℕ → ℕ → Bool
stamp_le a b = not (stamp_lt b a)

half_second : stamp_tail 500_000_000 ≡ codes ".5Z"
unfolding stamp_tail
half_second = refl

whole_second : stamp_tail 0 ≡ codes "Z"
unfolding stamp_tail
whole_second = refl

year_one : stamp_text 0 ≡ codes "0001-01-01T00:00:00Z"
unfolding stamp_text
year_one = refl

leap_day : stamp_text (63_844_806_896 * second + 120_000_000) ≡ codes "2024-02-29T12:34:56.12Z"
unfolding stamp_text
leap_day = refl

last_day : stamp_text (63_871_286_399 * second) ≡ codes "2024-12-31T23:59:59Z"
unfolding stamp_text
last_day = refl
