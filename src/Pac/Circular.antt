-- ===== src/Pac/Circular.antt =====
-- The wrapping ranges of `weekdayRange` and `timeRange`, of days and of seconds.
use proxylib.Prelude.{ℕ, ◌+◌, ◌-◌, ◌*◌, ◌%◌, ◌<◌, ◌≡◌, refl, [], ◌∷◌, arith, leb}
use proxylib.Pac.Times.{between, lex_le, lex_between, Moment, time_match}

-- the seconds since midnight
abbrev pub seconds : ℕ → ℕ → ℕ → ℕ
seconds h m s = h * 3600 + m * 60 + s

lex_le-seconds :
    (h m s h' m' s' : ℕ)
    → m < 60
    → s < 60
    → m' < 60
    → s' < 60
    → lex_le (h ∷ m ∷ s ∷ []) (h' ∷ m' ∷ s' ∷ []) ≡ leb (seconds h m s) (seconds h' m' s')
unfolding lex_le
lex_le-seconds h m s h' m' s' a b c d = ground (arith, a, b, c, d)

-- `timeRange` of four numbers is a range of the seconds since midnight that wraps past midnight,
-- from the first minute's start through the last minute's end.
pub time_match-seconds :
    (now : Moment) (h m k n : ℕ)
    → now.minute < 60
    → now.second < 60
    → m < 60
    → n < 60
    → time_match now (h ∷ m ∷ k ∷ n ∷ [])
      ≡ between (seconds h m 0) (seconds now.hour now.minute now.second) (seconds k n 59)
unfolding time_match lex_between
time_match-seconds now h m k n a b c d =
    rw
      (
        lex_le-seconds h m 0 k n 59 c (omega arith) d (omega arith),
        lex_le-seconds h m 0 now.hour now.minute now.second c (omega arith) a b,
        lex_le-seconds now.hour now.minute now.second k n 59 a b d (omega arith),
      )
      refl

-- On a circle of `size` places, `between` says whether a place is reached from the start no later
-- than the end is.
pub between-circular :
    (start today end : ℕ)
    → start < 7
    → today < 7
    → end < 7
    → between start today end ≡ leb ((today + 7 - start) % 7) ((end + 7 - start) % 7)
between-circular start today end a b c = ground (arith, a, b, c)
