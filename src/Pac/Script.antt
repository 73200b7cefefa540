-- ===== src/Pac/Script.antt =====
-- src/proxylib/pac/script.py: `PacScript.find_proxy_for_url` and `_restart`. What the helper process
-- does is an argument: what starting it comes to, and what one call of the script comes to.
use proxylib.Prelude.{
  ℕ, ◌+◌, ◌<◌, ◌≤◌, ◌≡◌, ◌⊎◌, inl, inr, Bool, true, false, not, Option, arith, ltb, if◌then◌else◌,
  or_else,
}
use proxylib.Python.Exec.{Error, Result, ok, raise, pac_error, Exec}
use proxylib.Python.Text.{Text, text}

-- `_runner is not None`, `bool(_failed)` and `_retry_at`
pub record PacScript : Type 0 where
  pub has_runner : Bool
  pub failed : Bool
  pub retry_at : ℕ

-- what a helper process comes to, when it is started or called: a value, an exception other than an
-- overrun, or an overrun
pub data Outcome (A : Type 0) : Type 0 where
  done : A → Outcome A
  broke : Error → Outcome A
  overran : Outcome A

abbrev pub cooldown : ℕ
cooldown = 30

-- `_restart`, where the script has failed
unfoldable pub restart : ℕ → Outcome (Unit {0}) → Exec PacScript (Unit {0})
restart now started s = if ltb now s.retry_at then (raise pac_error, s) else elim started [
  | done _ ↦ (ok tt, record s { failed = false })
  | broke e ↦ (raise e, s)
  | overran ↦ (raise pac_error, record s { retry_at = now + cooldown })
]

-- the `try` of `find_proxy_for_url`; a result that is not a text is `none`
unfoldable pub run_script : ℕ → Outcome (Option Text) → Exec PacScript Text
run_script now called s = elim called [
  | done value ↦ (ok (or_else value (text "DIRECT")), s)
  | broke e ↦ (raise e, s)
  | overran ↦ (raise pac_error, record s { failed = true; retry_at = now + cooldown })
]

after_restart : Result (Unit {0}) → ℕ → Outcome (Option Text) → Exec PacScript Text
unfolding run_script
after_restart (ok _) now called s = run_script now called s
after_restart (raise e) now called s = (raise e, s)

unfoldable pub find_proxy_for_url :
    ℕ → Outcome (Unit {0}) → Outcome (Option Text) → Exec PacScript Text
unfolding after_restart
find_proxy_for_url now started called s =
    if not s.has_runner
    then (ok (text "DIRECT"), s)
    else if s.failed
    then after_restart (restart now started s).0 now called (restart now started s).1
    else run_script now called s

-- A call overruns at the time `t`: the call itself, of a script that has not failed or was started again,
-- or the start, of one that has failed and may be started again.
abbrev pub Overruns : ℕ → Outcome (Unit {0}) → Outcome (Option Text) → PacScript → Type 0
Overruns t started called s =
    ((s.failed ≡ false) × (called ≡ overran))
    ⊎ ((s.failed ≡ true)
        × (s.retry_at ≤ t)
        × ((started ≡ overran) ⊎ ((started ≡ done tt) × (called ≡ overran))))

-- After a call that overran at the time `t`, in the call or while a script that had failed before was
-- started again, every call in the next 30 seconds raises `PACError`, whatever the helper process would
-- do, and leaves the script as it was.
pub find_proxy_for_url-cooldown :
    (t now : ℕ) (started started' : Outcome (Unit {0})) (called called' : Outcome (Option Text))
    (s : PacScript)
    → s.has_runner ≡ true
    → Overruns t started called s
    → t ≤ now
    → now < t + cooldown
    → find_proxy_for_url now started' called' (find_proxy_for_url t started called s).1
      ≡ (raise pac_error, (find_proxy_for_url t started called s).1)
unfolding find_proxy_for_url run_script restart after_restart
find_proxy_for_url-cooldown t now started started' called called' s runs (inl (fine, over)) late
      soon =
    rw (runs, fine, over) (ground (arith, runs, soon))
find_proxy_for_url-cooldown t now started started' called called' s runs (inr (f, from, inl over))
      late soon =
    rw (runs, f, over) (ground (arith, runs, f, from, soon))
find_proxy_for_url-cooldown t now started started' called called' s runs
      (inr (f, from, inr (again, over))) late soon =
    rw (runs, f, again, over) (ground (arith, runs, f, from, soon))

-- Once the 30 seconds are over and the script starts again, a call answers what it would have
-- answered had nothing failed.
pub find_proxy_for_url-recovers :
    (t now : ℕ) (started : Outcome (Unit {0})) (called : Outcome (Option Text)) (s : PacScript)
    → s.has_runner ≡ true
    → s.failed ≡ false
    → t + cooldown ≤ now
    → (find_proxy_for_url now (done tt) called (find_proxy_for_url t started overran s).1).0
      ≡ (find_proxy_for_url now (done tt) called s).0
unfolding find_proxy_for_url run_script restart
find_proxy_for_url-recovers t now started (done v) s runs fine late =
    rw (runs, fine) (ground (arith, runs, fine, late))
find_proxy_for_url-recovers t now started (broke e) s runs fine late =
    rw (runs, fine) (ground (arith, runs, fine, late))
find_proxy_for_url-recovers t now started overran s runs fine late =
    rw (runs, fine) (ground (arith, runs, fine, late))
