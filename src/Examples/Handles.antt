-- ===== src/Examples/Handles.antt =====
-- Maps of WinHTTP and of libproxy, and a PAC script, from their making to their end, at concrete inputs.
use proxylib.Prelude.{
  refl, ℕ, ◌+◌, ◌≡◌, true, eqb, leb, ltb, ◌&&◌, if◌then◌else◌, none, some, List, [], ◌∷◌,
}
use proxylib.Python.Text.{Text, text}
use proxylib.System.Owned.{Owned, Use, look_up, close_it}
use proxylib.System.WinHttp.{WinHttp, lifetime as winhttp_lifetime}
use proxylib.System.WinHttp.Releasing.{lifetime-releases}
use proxylib.System.LibProxy.{LibProxy, lifetime as libproxy_lifetime}
use proxylib.System.LibProxy.Releasing.{lifetime-frees}
use proxylib.Pac.Child.{init}
use proxylib.Pac.Runner.{
  Helpers, timed_out, replied, ScriptUse, call_it, close_script, lifetime as script_lifetime,
}
use proxylib.Pac.Runner.Ending.{lifetime-ends}
use proxylib.Samples.{offline}

-- WinHTTP with auto-detection and a manual proxy; the first call is challenged
abbrev challenged : WinHttp ℕ
challenged = record {
  is_windows = true;
  get_ie_proxy_config = λ s. (
    some (record {
      auto_detect = true;
      auto_config_url = none;
      proxy = some (text "squid:3128");
      proxy_bypass = some (text "<local>");
    }),
    s + 1,
  );
  open_session = λ s. (true, s);
  set_timeouts = λ session timeout s. s;
  close_handle = λ session s. s;
  get_proxy_for_url = λ session url options s. (
    if options.auto_logon
        then some (record { proxy = some (text "backup:80"); proxy_bypass = some (text "x") })
        else none,
    s + 1,
  );
  set_last_error = λ code s. s;
  get_last_error = λ s. 12015;
}

-- libproxy, whose first factory cannot be made
abbrev late : LibProxy ℕ
late = record {
  factory_new = λ s. (eqb s 1, s + 1);
  get_proxies = λ factory uri s. (some (text "http://squid:3128" ∷ text "direct://" ∷ []), s + 1);
  factory_free = λ factory s. s;
}

abbrev owns_seven : Owned ℕ
owns_seven = record { live = 7 ∷ []; next = 8; faults = 0; rest = 0 }

abbrev uses : List Use
uses =
    look_up (text "http://site/")
    ∷ look_up (text "http://y")
    ∷ close_it
    ∷ close_it
    ∷ look_up (text "http://site/")
    ∷ []

lifetime-releases_example :
    let after = winhttp_lifetime challenged uses owns_seven in
    (after.live ≡ 7 ∷ []) × (after.faults ≡ 0)
lifetime-releases_example = lifetime-releases challenged uses owns_seven

lifetime-frees_example :
    let after = libproxy_lifetime late true uses owns_seven in
    (after.live ≡ 7 ∷ []) × (after.faults ≡ 0)
lifetime-frees_example = lifetime-frees late true uses owns_seven

-- helpers that answer until the clock is 5, and then again from 40
abbrev stalling : Helpers ℕ Text
stalling = record {
  popen = λ s. (true, s);
  start_thread = λ s. (true, s);
  write_message = λ helper message s. (true, s + 1);
  next_reply = λ helper timeout s.
      (if leb 5 s && ltb s 40 then timed_out else replied (text "DIRECT"), s + timeout);
  kill_and_wait = λ helper s. s;
  monotonic = λ s. s;
  as_text = λ v. some v;
}

abbrev script_uses : List ScriptUse
script_uses =
    call_it (text "http://a/") (text "a")
    ∷ call_it (text "http://a/") (text "a")
    ∷ close_script
    ∷ call_it (text "http://b/") (text "b")
    ∷ []

lifetime-ends_example :
    let after =
      script_lifetime stalling true
        (init (text "dukpy") (text "script"))
        1
        true
        script_uses
        owns_seven in
    (after.live ≡ 7 ∷ []) × (after.faults ≡ 0)
lifetime-ends_example =
    lifetime-ends stalling true (init (text "dukpy") (text "script")) 1 (λ s. refl) true script_uses
      owns_seven
