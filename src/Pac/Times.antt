-- ===== src/Pac/Times.antt =====
-- src/proxylib/pac/_functions.py: `weekdayRange`, `dateRange` and `timeRange`. The clock is an
-- argument: the local time and the time in UTC. A script's number is a natural number.
use proxylib.Prelude.{
  ℕ, suc, ◌+◌, ◌/◌, Bool, true, false, ◌&&◌, ◌||◌, Option, none, some, List, [], ◌∷◌, ltb, leb, eqb,
  if◌then◌else◌, length, take, drop,
}
use proxylib.Python.Exec.{Result, ok, raise, value_error, ◌>>=◌}
use proxylib.Python.Text.{Text, text, upper, strip, is_number, int, ◌==◌}

-- an argument that a script passes
pub data Arg : Type 0 where
  str : Text → Arg
  num : ℕ → Arg

-- a `datetime`, with `isoweekday() % 7`
pub record Moment : Type 0 where
  pub year : ℕ
  pub month : ℕ
  pub day : ℕ
  pub hour : ℕ
  pub minute : ℕ
  pub second : ℕ
  pub weekday : ℕ

pub record Clock : Type 0 where
  pub local_time : Moment
  pub utc : Moment

-- `_now`
abbrev pub now_of : Clock → Bool → Moment
now_of clock gmt = if gmt then clock.utc else clock.local_time

is_gmt : Arg → Bool
is_gmt (str s) = upper s == text "GMT"
is_gmt (num n) = false

-- `_split_gmt`
unfoldable pub split_gmt : List Arg → List Arg × Bool
unfolding is_gmt
split_gmt [] = ([], false)
split_gmt (a ∷ []) = if is_gmt a then ([], true) else (a ∷ [], false)
split_gmt (a ∷ b ∷ args) = let (values, gmt) = split_gmt (b ∷ args) in (a ∷ values, gmt)

unfoldable pub index_of : Text → List Text → Option ℕ
index_of name [] = none
index_of name (n ∷ names) =
    let rest = index_of name names in
    if n == name then some 0 else elim rest [ none ↦ none | some i ↦ some (suc i) ]

abbrev pub weekdays : List Text
weekdays =
    text "SUN" ∷ text "MON" ∷ text "TUE" ∷ text "WED" ∷ text "THU" ∷ text "FRI" ∷ text "SAT" ∷ []

abbrev pub months : List Text
months =
    text "JAN"
    ∷ text "FEB"
    ∷ text "MAR"
    ∷ text "APR"
    ∷ text "MAY"
    ∷ text "JUN"
    ∷ text "JUL"
    ∷ text "AUG"
    ∷ text "SEP"
    ∷ text "OCT"
    ∷ text "NOV"
    ∷ text "DEC"
    ∷ []

weekday_of : Arg → Option ℕ
weekday_of (str s) = index_of (upper s) weekdays
weekday_of (num n) = none

-- `start <= today <= end`, or a range that wraps
abbrev pub between : ℕ → ℕ → ℕ → Bool
between start today end =
    if leb start end then leb start today && leb today end else leb start today || leb today end

weekdays_between : Option ℕ → ℕ → Option ℕ → Bool
weekdays_between (some start) today (some end) = between start today end
weekdays_between _ _ _ = false

-- the names of `values[:2]`
weekdays_match : List Arg → ℕ → Bool
unfolding weekdays_between weekday_of
weekdays_match [] today = false
weekdays_match (a ∷ []) today = weekdays_between (weekday_of a) today (weekday_of a)
weekdays_match (a ∷ b ∷ _) today = weekdays_between (weekday_of a) today (weekday_of b)

unfoldable pub weekday_range : Clock → List Arg → Bool
unfolding weekdays_match
weekday_range clock args =
    let (values, gmt) = split_gmt args in weekdays_match values (now_of clock gmt).weekday

-- `int(v)`
unfoldable pub int_of : Arg → Result ℕ
int_of (num n) = ok n
int_of (str s) = if is_number (strip s) then ok (int (strip s)) else raise value_error

unfoldable pub ints_of : List Arg → Result (List ℕ)
ints_of [] = ok []
ints_of (a ∷ args) = do n ← int_of a; ns ← ints_of args; ok (n ∷ ns)

-- `<=` of two lists of numbers
unfoldable pub lex_le : List ℕ → List ℕ → Bool
lex_le [] ys = true
lex_le (x ∷ xs) [] = false
lex_le (x ∷ xs) (y ∷ ys) = let rest = lex_le xs ys in ltb x y || (eqb x y && rest)

unfoldable pub lex_between : List ℕ → List ℕ → List ℕ → Bool
lex_between start moment end =
    if lex_le start end
    then lex_le start moment && lex_le moment end
    else lex_le start moment || lex_le moment end

unfoldable pub time_match : Moment → List ℕ → Bool
time_match now (h ∷ []) = eqb now.hour h
time_match now (h ∷ k ∷ []) = leb h now.hour && leb now.hour k
time_match now (h ∷ m ∷ k ∷ n ∷ []) =
    lex_between (h ∷ m ∷ 0 ∷ []) (now.hour ∷ now.minute ∷ now.second ∷ []) (k ∷ n ∷ 59 ∷ [])
time_match now (h ∷ m ∷ s ∷ k ∷ n ∷ t ∷ []) =
    lex_between (h ∷ m ∷ s ∷ []) (now.hour ∷ now.minute ∷ now.second ∷ []) (k ∷ n ∷ t ∷ [])
time_match now _ = false

unfoldable pub time_range : Clock → List Arg → Result Bool
time_range clock args =
    let (values, gmt) = split_gmt args in
    do numbers ← ints_of values; ok (time_match (now_of clock gmt) numbers)

pub data Kind : Type 0 where
  day_kind month_kind year_kind : Kind

-- `_date_part`
unfoldable pub date_part : Arg → Result (Kind × ℕ)
date_part (num n) = ok (if ltb n 32 then (day_kind, n) else (year_kind, n))
date_part (str s) =
    if is_number (strip s)
    then ok
        (if ltb (int (strip s)) 32 then (day_kind, int (strip s)) else (year_kind, int (strip s)))
    else elim (index_of (upper (strip s)) months) [
      | none ↦ raise value_error
      | some i ↦ ok (month_kind, i + 1)
    ]

unfoldable pub date_parts : List Arg → Result (List (Kind × ℕ))
date_parts [] = ok []
date_parts (a ∷ args) = do p ← date_part a; ps ← date_parts args; ok (p ∷ ps)

-- `bound[index[kind]] = value`, for the year, the month and the day of a bound
unfoldable pub set_parts : List (Kind × ℕ) → ℕ × ℕ × ℕ → ℕ × ℕ × ℕ
set_parts [] b = b
set_parts ((year_kind, v) ∷ ps) (y, m, d) = set_parts ps (v, m, d)
set_parts ((month_kind, v) ∷ ps) (y, m, d) = set_parts ps (y, v, d)
set_parts ((day_kind, v) ∷ ps) (y, m, d) = set_parts ps (y, m, v)

names_day : List (Kind × ℕ) → Bool
names_day ((day_kind, v) ∷ ps) = true
names_day ((month_kind, v) ∷ ps) = names_day ps
names_day ((year_kind, v) ∷ ps) = names_day ps
names_day [] = false

abbrev part_of : Moment → Kind → ℕ
part_of now day_kind = now.day
part_of now month_kind = now.month
part_of now year_kind = now.year

abbrev date_list : Bool → Moment → ℕ × ℕ × ℕ → List ℕ → List ℕ
date_list current_month now (y, m, d) time = y ∷ (if current_month then now.month else m) ∷ d ∷ time

unfoldable pub dates_match : Moment → List (Kind × ℕ) → Bool
unfolding names_day
dates_match now [] = false
dates_match now ((kind, value) ∷ []) = eqb (part_of now kind) value
dates_match now (p ∷ q ∷ ps) =
    let parts = p ∷ q ∷ ps in
    let first = take (length parts / 2) parts in
    let current_month = names_day first && leb (length parts) 2 in
    lex_between (date_list current_month now (set_parts first (now.year, 1, 1)) (0 ∷ 0 ∷ 0 ∷ []))
      (now.year ∷ now.month ∷ now.day ∷ now.hour ∷ now.minute ∷ now.second ∷ [])
      (date_list current_month now (set_parts (drop (length parts / 2) parts) (now.year, 12, 31))
        (23 ∷ 59 ∷ 59 ∷ []))

-- `dateRange`, which answers false for an unknown month
unfoldable pub date_range : Clock → List Arg → Bool
date_range clock args =
    let (values, gmt) = split_gmt args in
    elim (date_parts values) [ raise e ↦ false | ok parts ↦ dates_match (now_of clock gmt) parts ]
