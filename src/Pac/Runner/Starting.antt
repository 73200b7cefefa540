-- ===== src/Pac/Runner/Starting.antt =====
-- src/proxylib/pac/script.py: `_Runner` leaves its helper process to its owner, or ends it.
use proxylib.Prelude.{true, ◌≡◌, ℕ, Bool, Option, none, some, Bool-cases, inl, inr}
use proxylib.System.Owned.{Owned, acquire}
use proxylib.System.Owned.Balance.{
  Same, Same-refl, Same-rest, release-Same, acquire-OneMore, Gives, itself, Tidy, Gives-Same,
}
use proxylib.Pac.Child.{Message}
use proxylib.Pac.Script.{Outcome, done, broke, overran}
use proxylib.Pac.Runner.{
  Got, timed_out, exited, refused, replied, Helpers, child_start_timeout, close, read_reply,
  wait_reply, request, or_close, when_ready, begin, start,
}

module _ {S V : Type 0} (os : Helpers S V) where
  pub close-Same :
      (a w : Owned S) (helper : Option ℕ)
      → Gives itself a (helper, w)
      → Same a (close os helper w).1
  unfolding close
  close-Same a w none h = h
  close-Same a w (some helper) h = release-Same a w _ helper h (Same-rest w _)

  pub close-Tidy : Tidy (close os)
  unfolding close
  close-Tidy a w none h = close-Same a w none h
  close-Tidy a w (some helper) h = close-Same a w (some helper) h

  -- what a call leaves of the helper: `f` gives an outcome, too
  abbrev pub Leaves : {X : Type 0} → Owned S → X × (Option ℕ × Owned S) → Type 0
  Leaves a (x, left) = Gives itself a left

  read_reply-Leaves :
      (got : Got V) (a w : Owned S) (helper : Option ℕ)
      → Gives itself a (helper, w)
      → Leaves a (read_reply os got helper w)
  unfolding read_reply
  read_reply-Leaves timed_out a w helper h = close-Tidy a w helper h
  read_reply-Leaves exited a w helper h = h
  read_reply-Leaves refused a w helper h = h
  read_reply-Leaves (replied v) a w helper h = h

  wait_reply-Leaves :
      (timeout helper : ℕ) (a w : Owned S)
      → Gives itself a (some helper, w)
      → Leaves a (wait_reply os timeout helper w)
  unfolding wait_reply
  wait_reply-Leaves timeout helper a w h =
      let (got, s) = os.next_reply helper timeout w.rest in
      read_reply-Leaves got a (record w { rest = s }) (some helper)
        (Gives-Same a w (record w { rest = s }) (some helper) h (Same-rest w s))

  pub request-Leaves :
      (message : Message) (timeout : ℕ) (a w : Owned S) (helper : Option ℕ)
      → Gives itself a (helper, w)
      → Leaves a (request os message timeout helper w)
  unfolding request
  request-Leaves message timeout a w none h = h
  request-Leaves message timeout a w (some helper) h =
      let (written, s) = os.write_message helper message w.rest in
      let still = Gives-Same a w (record w { rest = s }) (some helper) h (Same-rest w s) in
      elim (Bool-cases written) [
        | inl yes' ↦ rw yes' (wait_reply-Leaves timeout helper a (record w { rest = s }) still)
        | inr no' ↦ rw no' still
      ]

  -- what starting a runner leaves: a helper only where it gives a runner
  abbrev pub Starts : Owned S → Outcome V × (Option ℕ × Owned S) → Type 0
  Starts a (done v, left) = Gives itself a left
  Starts a (broke e, (helper, w)) = Same a w
  Starts a (overran, (helper, w)) = Same a w

  or_close-Starts :
      (result : Outcome V) (a w : Owned S) (helper : Option ℕ)
      → Gives itself a (helper, w)
      → Starts a (or_close os result helper w)
  unfolding or_close
  or_close-Starts (done v) a w helper h = h
  or_close-Starts (broke e) a w helper h = close-Same a w helper h
  or_close-Starts overran a w helper h = close-Same a w helper h

  when_ready-Leaves :
      (message : Message) (timeout : ℕ) (ready : Outcome V) (a w : Owned S) (helper : Option ℕ)
      → Gives itself a (helper, w)
      → Leaves a (when_ready os message timeout ready helper w)
  unfolding when_ready
  when_ready-Leaves message timeout (done v) a w helper h =
      request-Leaves message timeout a w helper h
  when_ready-Leaves message timeout (broke e) a w helper h = h
  when_ready-Leaves message timeout overran a w helper h = h

  begin-Starts :
      (message : Message) (timeout helper : ℕ) (a w : Owned S)
      → Gives itself a (some helper, w)
      → Starts a (begin os message timeout helper w)
  unfolding begin
  begin-Starts message timeout helper a w h =
      let (ready, (h1, w1)) = wait_reply os child_start_timeout helper w in
      let (result, (h2, w2)) = when_ready os message timeout ready h1 w1 in
      or_close-Starts result a w2 h2 (
        when_ready-Leaves message timeout ready a w1 h1
          (wait_reply-Leaves child_start_timeout helper a w h))

  -- the thread that reads the replies can be started
  abbrev pub Reads : Type 0
  Reads = (s : S) → (os.start_thread s).0 ≡ true

  module _ (picklable : Bool) (script : Message) (timeout : ℕ) where
    pub start-Starts : (w : Owned S) → Reads → Starts w (start os picklable script timeout w)
    unfolding start
    start-Starts w reads =
        let s = (os.popen w.rest).1 in
        let w1 = record w { rest = s } in
        let w2 = (acquire w1).1 in
        let w3 = record w2 { rest = (os.start_thread w2.rest).1 } in
        elim (Bool-cases picklable) [
          | inr no' ↦ rw no' (Same-refl w)
          | inl yes' ↦ rw yes' (elim (Bool-cases (os.popen w.rest).0) [
            | inr fails ↦ rw fails (Same-rest w s)
            | inl starts ↦
                rw (starts, reads w2.rest)
                  (begin-Starts script timeout (acquire w1).0 w w3 (
                    Gives-Same w w2 w3 (some (acquire w1).0) (acquire-OneMore w w1 (Same-rest w s))
                      (Same-rest w2 _)))
          ])
        ]
