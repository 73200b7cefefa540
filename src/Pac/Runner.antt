-- ===== src/Pac/Runner.antt =====
-- src/proxylib/pac/script.py: `_Runner`, the helper process of a script, and what `PacScript` does with it
-- from its making to its end. What the OS and the helper do is an argument, `Helpers`.
pub mod Starting
pub mod Ending
use proxylib.Prelude.{
  ℕ, ◌+◌, Bool, true, false, not, Option, none, some, List, [], ◌∷◌, ltb, if◌then◌else◌, or_else,
}
use proxylib.Python.Exec.{
  Error, Result, ok, raise, pac_error, type_error, os_error, runtime_error, Exec,
}
use proxylib.Python.Text.{Text, text}
use proxylib.System.Owned.{Owned, acquire, release}
use proxylib.Pac.Child.{Message, init, call}
use proxylib.Pac.Script.{Outcome, done, broke, overran, cooldown}

-- what `self._replies.get(timeout=…)` gives: nothing in time, `None`, or a reply with or without "ok"
pub data Got (V : Type 0) : Type 0 where
  timed_out exited refused : Got V
  replied : V → Got V

-- starting a helper and the thread that reads its replies, writing to it, its replies, its end, and the clock
pub record Helpers (S V : Type 0) : Type 0 where
  pub popen : S → Bool × S
  pub start_thread : S → Bool × S
  pub write_message : ℕ → Message → S → Bool × S
  pub next_reply : ℕ → ℕ → S → Got V × S
  pub kill_and_wait : ℕ → S → S
  pub monotonic : S → ℕ
  pub as_text : V → Option Text

-- `_CHILD_START_TIMEOUT`
abbrev pub child_start_timeout : ℕ
child_start_timeout = 30

-- `_runner is not None`, the helper of the runner or none once it has ended, `bool(_failed)`, `_retry_at`
pub record Running : Type 0 where
  pub has_runner : Bool
  pub helper : Option ℕ
  pub failed : Bool
  pub retry_at : ℕ

-- what a program does with a script
pub data ScriptUse : Type 0 where
  call_it : Text → Text → ScriptUse
  close_script : ScriptUse

module _ {S V : Type 0} (os : Helpers S V) where
  -- `_Runner.close`: the pipes of a helper that has ended are closed already
  unfoldable pub close : Option ℕ → Owned S → Option ℕ × Owned S
  close none w = (none, w)
  close (some helper) w =
      (none, release helper (record w { rest = os.kill_and_wait helper w.rest }))

  -- `_wait_reply`
  unfoldable pub read_reply : Got V → Option ℕ → Owned S → Outcome V × (Option ℕ × Owned S)
  read_reply timed_out helper w = (overran, close helper w)
  read_reply exited helper w = (broke pac_error, (helper, w))
  read_reply refused helper w = (broke pac_error, (helper, w))
  read_reply (replied v) helper w = (done v, (helper, w))

  unfoldable pub wait_reply : ℕ → ℕ → Owned S → Outcome V × (Option ℕ × Owned S)
  wait_reply timeout helper w =
      let (got, s) = os.next_reply helper timeout w.rest in
      read_reply got (some helper) (record w { rest = s })

  -- `_request`; writing to a pipe that is closed is a `ValueError`
  unfoldable pub request : Message → ℕ → Option ℕ → Owned S → Outcome V × (Option ℕ × Owned S)
  request message timeout none w = (broke pac_error, (none, w))
  request message timeout (some helper) w =
      let (written, s) = os.write_message helper message w.rest in
      let answered = wait_reply timeout helper (record w { rest = s }) in
      if written then answered else (broke pac_error, (some helper, record w { rest = s }))

  -- `except BaseException: self.close(); raise`
  unfoldable pub or_close : Outcome V → Option ℕ → Owned S → Outcome V × (Option ℕ × Owned S)
  or_close (done v) helper w = (done v, (helper, w))
  or_close (broke e) helper w = (broke e, close helper w)
  or_close overran helper w = (overran, close helper w)

  -- the `init` request, where the helper is ready
  unfoldable pub when_ready :
      Message → ℕ → Outcome V → Option ℕ → Owned S → Outcome V × (Option ℕ × Owned S)
  when_ready message timeout (done v) helper w = request message timeout helper w
  when_ready message timeout (broke e) helper w = (broke e, (helper, w))
  when_ready message timeout overran helper w = (overran, (helper, w))

  -- the `try` of `_Runner.__init__`, with the helper that was started
  unfoldable pub begin : Message → ℕ → ℕ → Owned S → Outcome V × (Option ℕ × Owned S)
  begin message timeout helper w =
      let (ready, (h1, w1)) = wait_reply child_start_timeout helper w in
      let (result, (h2, w2)) = when_ready message timeout ready h1 w1 in or_close result h2 w2

  module _ (picklable : Bool) (script : Message) (timeout : ℕ) where
    -- `_Runner.__init__`; where the thread cannot be started the helper is left running
    unfoldable pub start : Owned S → Outcome V × (Option ℕ × Owned S)
    start w =
        let (started, s) = os.popen w.rest in
        let (helper, w') = acquire (record w { rest = s }) in
        let (reading, s') = os.start_thread w'.rest in
        let w'' = record w' { rest = s' } in
        let begun = begin script timeout helper w'' in
        if not picklable
        then (broke type_error, (none, w))
        else if not started
        then (broke os_error, (none, record w { rest = s }))
        else if reading
        then begun
        else (broke runtime_error, (none, w''))

    -- the end of `_restart`, over what starting came to; a helper is the script's only if it started
    unfoldable pub restarted :
        Outcome V → Option ℕ → Running → Owned S → Result (Unit {0}) × (Running × Owned S)
    restarted (done v) helper p w = (ok tt, (record p { helper = helper; failed = false }, w))
    restarted (broke e) helper p w = (raise e, (p, w))
    restarted overran helper p w =
        (raise pac_error, (record p { retry_at = os.monotonic w.rest + cooldown }, w))

    -- `_restart`
    unfoldable pub restart : Running → Owned S → Result (Unit {0}) × (Running × Owned S)
    restart p w =
        let (result, (helper, w')) = start w in
        let again = restarted result helper p w' in
        if ltb (os.monotonic w.rest) p.retry_at then (raise pac_error, (p, w)) else again

    -- the end of `find_proxy_for_url`, over what the call came to
    unfoldable pub called :
        Outcome V → Option ℕ → Running → Owned S → Result Text × (Running × Owned S)
    called (done v) helper p w =
        (ok (or_else (os.as_text v) (text "DIRECT")), (record p { helper = helper }, w))
    called (broke e) helper p w = (raise e, (record p { helper = helper }, w))
    called overran helper p w =
        let retry_at = os.monotonic w.rest + cooldown in
        let (helper', w') = close helper w in
        (raise pac_error, (record p { helper = helper'; failed = true; retry_at = retry_at }, w'))

    unfoldable pub call_script : Text → Text → Running → Owned S → Result Text × (Running × Owned S)
    call_script url host p w =
        let (result, (helper, w')) = request (call url host) timeout p.helper w in
        called result helper p w'

    unfoldable pub after_restart :
        Text → Text → Result (Unit {0}) → Running → Owned S → Result Text × (Running × Owned S)
    after_restart url host (ok _) p w = call_script url host p w
    after_restart url host (raise e) p w = (raise e, (p, w))

    -- `find_proxy_for_url`
    unfoldable pub find_proxy_for_url :
        Text → Text → Running → Owned S → Result Text × (Running × Owned S)
    find_proxy_for_url url host p w =
        let (restarting, (p', w')) = restart p w in
        let again = after_restart url host restarting p' w' in
        let at_once = call_script url host p w in
        if not p.has_runner
        then (ok (text "DIRECT"), (p, w))
        else if p.failed
        then again
        else at_once

    -- the runner that `PacScript.__init__` makes, where an engine is installed
    unfoldable pub made : Outcome V → Option ℕ → Owned S → Result Running × Owned S
    made (done v) helper w =
        (ok (record { has_runner = true; helper = helper; failed = false; retry_at = 0 }), w)
    made (broke e) helper w = (raise e, w)
    made overran helper w = (raise pac_error, w)

    unfoldable pub make : Bool → Owned S → Result Running × Owned S
    make false w =
        (ok (record { has_runner = false; helper = none; failed = false; retry_at = 0 }), w)
    make true w = let (result, (helper, w')) = start w in made result helper w'

    -- a call of the script, or `PacScript.close`
    unfoldable pub use_script : ScriptUse → Running → Owned S → Running × Owned S
    use_script (call_it url host) p w = (find_proxy_for_url url host p w).1
    use_script close_script p w =
        let (helper, w') = close p.helper w in (record p { helper = helper }, w')

    unfoldable pub use_scripts : List ScriptUse → Running → Owned S → Running × Owned S
    use_scripts [] p w = (p, w)
    use_scripts (u ∷ us) p w = let (p', w') = use_script u p w in use_scripts us p' w'

    -- the uses of a script, and `__del__`
    unfoldable pub use_up : List ScriptUse → Result Running → Owned S → Owned S
    use_up uses (raise e) w = w
    use_up uses (ok p) w = let (p', w') = use_scripts uses p w in (close p'.helper w').1

    -- a script from its making to its end; `installed`: there is an engine
    unfoldable pub lifetime : Bool → List ScriptUse → Owned S → Owned S
    lifetime installed uses w = let (result, w') = make installed w in use_up uses result w'
