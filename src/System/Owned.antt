-- ===== src/System/Owned.antt =====
-- src/proxylib/system/: what the program holds of the memory of an OS library, and must release: the
-- references of _darwin.py, and the handle and the strings of _nt.py. An object is a number.
pub mod Balance
use proxylib.Python.Text.{Text}
use proxylib.Prelude.{Option, ℕ, suc, List, [], ◌∷◌, Bool, eqb, if◌then◌else◌, any}

-- the objects that the caller must release, the number of the next one, how many times
-- something else was released, and the rest of the state
pub record Owned (S : Type 0) : Type 0 where
  pub live : List ℕ
  pub next : ℕ
  pub faults : ℕ
  pub rest : S

-- a call that gives an object: one named `Create` or `Copy`, or `CFRetain`; or `WinHttpOpen`
unfoldable pub acquire : {S : Type 0} → Owned S → ℕ × Owned S
acquire w = (w.next, record w { live = w.next ∷ w.live; next = suc w.next })

unfoldable pub remove_first : ℕ → List ℕ → List ℕ
remove_first r [] = []
remove_first r (q ∷ qs) = let rest = remove_first r qs in if eqb q r then qs else q ∷ rest

-- `CFRelease`, `GlobalFree` or `WinHttpCloseHandle`
unfoldable pub release : {S : Type 0} → ℕ → Owned S → Owned S
release r w = record w {
  live = remove_first r w.live;
  faults = if any (λ q. eqb q r) w.live then w.faults else suc w.faults;
}

-- what a program does with a map of an OS library
pub data Use : Type 0 where
  look_up : Text → Use
  close_it : Use

-- the object that a map holds between its uses, and what each use makes of it
module _ {S : Type 0} (look : Text → Option ℕ → Owned S → Option ℕ × Owned S)
    (close : Option ℕ → Owned S → Option ℕ × Owned S) where
  unfoldable pub use_map : Use → Option ℕ → Owned S → Option ℕ × Owned S
  use_map (look_up url) held w = look url held w
  use_map close_it held w = close held w

  unfoldable pub use_all : List Use → Option ℕ → Owned S → Option ℕ × Owned S
  use_all [] held w = (held, w)
  use_all (u ∷ us) held w = let (held', w') = use_map u held w in use_all us held' w'
