-- ===== src/Pac/Runner/Ending.antt =====
-- src/proxylib/pac/script.py: no helper process is left behind.
use proxylib.Prelude.{
  ℕ, ◌≡◌, refl, ap, if◌then◌else◌, Bool, true, false, Option, none, some, List, [], ◌∷◌, Bool-cases,
  inl, inr, ltb, not,
}
use proxylib.Python.Exec.{Result, ok, raise}
use proxylib.Python.Text.{Text}
use proxylib.System.Owned.{Owned}
use proxylib.System.Owned.Balance.{Same, Same-refl, Same-trans, Gives, itself, Gives-after}
use proxylib.Pac.Child.{Message, call}
use proxylib.Pac.Script.{Outcome, done, broke, overran}
use proxylib.Pac.Runner.{
  Helpers, Running, ScriptUse, call_it, close_script, close, request, start, restarted, restart,
  called, call_script, after_restart, find_proxy_for_url, made, make, use_script, use_scripts,
  use_up, lifetime,
}
use proxylib.Pac.Runner.Starting.{
  close-Same, close-Tidy, request-Leaves, Starts, start-Starts, Reads,
}

module _ {S V : Type 0} (os : Helpers S V) (picklable : Bool) (script : Message) (timeout : ℕ)
    (reads : Reads os) where
  -- A script has at most one helper, which is its runner's; none where the script has failed.
  abbrev Holds : Owned S → Running × Owned S → Type 0
  Holds a (p, w) = (p.failed ≡ true → p.helper ≡ none) × Gives itself a (p.helper, w)

  Starts-after :
      (a b : Owned S) (result : Outcome V × (Option ℕ × Owned S))
      → Same a b
      → Starts os b result
      → Starts os a result
  Starts-after a b (done v, (none, w)) h k = Same-trans a b w h k
  Starts-after a b (done v, (some helper, w)) h k = Gives-after itself a b (some helper, w) h k
  Starts-after a b (broke e, (helper, w)) h k = Same-trans a b w h k
  Starts-after a b (overran, (helper, w)) h k = Same-trans a b w h k

  -- what a use of the script leaves
  abbrev Left : {X : Type 0} → Owned S → X × (Running × Owned S) → Type 0
  Left a (x, left) = Holds a left

  -- what a restart leaves: a script that has not failed, where it succeeds
  abbrev Restarts : Owned S → Result (Unit {0}) × (Running × Owned S) → Type 0
  Restarts a (ok _, (p, w)) = (p.failed ≡ false) × Gives itself a (p.helper, w)
  Restarts a (raise e, left) = Holds a left

  restarted-Restarts :
      (result : Outcome V) (helper : Option ℕ) (p : Running) (a w : Owned S)
      → p.helper ≡ none
      → Starts os a (result, (helper, w))
      → Restarts a (restarted os picklable script timeout result helper p w)
  unfolding restarted
  restarted-Restarts (done v) helper p a w gone h = (refl, h)
  restarted-Restarts (broke e) helper p a w gone h = (λ f. gone, rw gone h)
  restarted-Restarts overran helper p a w gone h = (λ f. gone, rw gone h)

  restart-Restarts :
      (p : Running) (a w : Owned S)
      → p.failed ≡ true
      → Holds a (p, w)
      → Restarts a (restart os picklable script timeout p w)
  unfolding restart
  restart-Restarts p a w failed (ends, h) =
      let (result, (helper, w')) = start os picklable script timeout w in
      let same : Same a w = rw (ends failed) at h in
      elim (Bool-cases (ltb (os.monotonic w.rest) p.retry_at)) [
        | inl soon ↦ rw soon (ends, h)
        | inr late ↦ rw late (
            restarted-Restarts result helper p a w' (ends failed) (
              Starts-after a w (result, (helper, w')) same
                (start-Starts os picklable script timeout w reads)))
      ]

  if-Left :
      {X : Type 0} (a : Owned S) (b : Bool) (x y : X × (Running × Owned S))
      → (b ≡ true → Left a x)
      → (b ≡ false → Left a y)
      → Left a (if b then x else y)
  if-Left a true x y h k = h refl
  if-Left a false x y h k = k refl

  called-Left :
      (result : Outcome V) (helper : Option ℕ) (p : Running) (a w : Owned S)
      → p.failed ≡ false
      → Gives itself a (helper, w)
      → Left a (called os picklable script timeout result helper p w)
  unfolding called close
  called-Left (done v) helper p a w fine h = (λ f. cc, h)
  called-Left (broke e) helper p a w fine h = (λ f. cc, h)
  called-Left overran none p a w fine h = (λ f. refl, h)
  called-Left overran (some helper) p a w fine h = (λ f. refl, close-Same os a w (some helper) h)

  call_script-Left :
      (url host : Text) (p : Running) (a w : Owned S)
      → p.failed ≡ false
      → Gives itself a (p.helper, w)
      → Left a (call_script os picklable script timeout url host p w)
  unfolding call_script
  call_script-Left url host p a w fine h =
      let (result, (helper, w')) = request os (call url host) timeout p.helper w in
      called-Left result helper p a w' fine
        (request-Leaves os (call url host) timeout a w p.helper h)

  after_restart-Left :
      (url host : Text) (restarting : Result (Unit {0})) (p : Running) (a w : Owned S)
      → Restarts a (restarting, (p, w))
      → Left a (after_restart os picklable script timeout url host restarting p w)
  unfolding after_restart
  after_restart-Left url host (ok _) p a w (fine, h) = call_script-Left url host p a w fine h
  after_restart-Left url host (raise e) p a w h = h

  find_proxy_for_url-Left :
      (url host : Text) (p : Running) (a w : Owned S)
      → Holds a (p, w)
      → Left a (find_proxy_for_url os picklable script timeout url host p w)
  unfolding find_proxy_for_url
  find_proxy_for_url-Left url host p a w h =
      let (restarting, (p', w')) = restart os picklable script timeout p w in
      if-Left a (not p.has_runner) _ _ (λ off. h)
        (λ on.
          if-Left a p.failed _ _
            (λ failed.
              after_restart-Left url host restarting p' a w' (restart-Restarts p a w failed h))
            (λ fine. call_script-Left url host p a w fine h.1))

  use_script-Left :
      (u : ScriptUse) (p : Running) (a w : Owned S)
      → Holds a (p, w)
      → Holds a (use_script os picklable script timeout u p w)
  unfolding use_script close
  use_script-Left (call_it url host) p a w h = find_proxy_for_url-Left url host p a w h
  use_script-Left close_script p a w (ends, h) =
      (λ f. ap (λ helper. (close os helper w).0) (ends f), close-Tidy os a w p.helper h)

  use_scripts-Left :
      (uses : List ScriptUse) (p : Running) (a w : Owned S)
      → Holds a (p, w)
      → Holds a (use_scripts os picklable script timeout uses p w)
  unfolding use_scripts
  use_scripts-Left [] p a w h = h
  use_scripts-Left (u ∷ uses) p a w h =
      let (p', w') = use_script os picklable script timeout u p w in
      use_scripts-Left uses p' a w' (use_script-Left u p a w h)

  use_up-Same :
      (uses : List ScriptUse) (a w : Owned S) (result : Outcome V) (helper : Option ℕ)
      → Starts os a (result, (helper, w))
      → let (r, w') = made os picklable script timeout result helper w in
        Same a (use_up os picklable script timeout uses r w')
  unfolding use_up made
  use_up-Same uses a w (broke e) helper h = h
  use_up-Same uses a w overran helper h = h
  use_up-Same uses a w (done v) helper h =
      let p : Running = record {
        has_runner = true;
        helper = helper;
        failed = false;
        retry_at = 0;
      } in
      let (p', w') = use_scripts os picklable script timeout uses p w in
      close-Same os a w' p'.helper (use_scripts-Left uses p a w (λ f. cc, h)).1

  -- Where the thread that reads a helper's replies can be started: whatever a program does with a
  -- `PacScript`, in whatever order it calls and closes it, and however its helpers behave (one does not
  -- start, is gone, answers with an error, overruns and is replaced, or making the script raises), when the
  -- script is gone, every helper process that it started was ended exactly once, and no other process was.
  pub lifetime-ends :
      (installed : Bool) (uses : List ScriptUse) (w : Owned S)
      → let after = lifetime os picklable script timeout installed uses w in
        (after.live ≡ w.live) × (after.faults ≡ w.faults)
  unfolding lifetime make use_up
  lifetime-ends false uses w =
      let p : Running = record {
        has_runner = false;
        helper = none;
        failed = false;
        retry_at = 0;
      } in
      let (p', w') = use_scripts os picklable script timeout uses p w in
      let kept =
        close-Same os w w' p'.helper (use_scripts-Left uses p w w (λ f. cc, Same-refl w)).1 in
      (kept.owned, kept.sound)
  lifetime-ends true uses w =
      let (result, (helper, w')) = start os picklable script timeout w in
      let kept =
        use_up-Same uses w w' result helper (start-Starts os picklable script timeout w reads) in
      (kept.owned, kept.sound)
