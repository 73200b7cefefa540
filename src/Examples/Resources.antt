-- ===== src/Examples/Resources.antt =====
-- References, transports, sessions and managers, at concrete inputs.
use proxylib.Prelude.{ℕ, ◌+◌, ◌≡◌, refl, Bool, true, none, some, List, [], ◌∷◌, arith}
use proxylib.Python.Text.{Text, text}
use proxylib.Python.Exec.{ok}
use proxylib.Python.Dict.{Dict}
use proxylib.System.Resolvers.{CfEntry, pac_url_type}
use proxylib.System.Owned.{Owned}
use proxylib.System.References.{CfNetwork, waited, pump, resolve_proxies_for_url}
use proxylib.System.References.Released.{resolve_proxies_for_url-releases, pump-enough}
use proxylib.System.Dbus.{object_paths}
use proxylib.System.Dbus.Paths.{reply_of, object_paths-reply_of}
use proxylib.Integrations.Failover.{responded}
use proxylib.Integrations.Httpx.{Httpx, Target}
use proxylib.Integrations.Httpx.Closing.{
  close, noted, use_for, close_all, perform_all, close_all-closes,
}
use proxylib.Integrations.Requests.Managers.{
  proxy_manager_for, after_calls, make_manager, proxy_manager_for-own,
}
use proxylib.Integrations.Aiohttp.Session.{perform_all as do_all}
use proxylib.Samples.{offline, squid, backup}

-- CFNetwork with one PAC, whose script never answers; the clock counts the slices of the run loop
abbrev pac_entry_of : CfEntry
pac_entry_of = record {
  kind = pac_url_type;
  pac_url = some (text "http://x/p");
  host = none;
  port = none;
}

abbrev silent : CfNetwork ℕ
silent = record {
  create_url = λ url s. (true, s);
  copy_settings = λ s. (true, s);
  copy_proxies = λ url s. (some (pac_entry_of ∷ []), s);
  execute_pac = λ pac_url url s. (true, s);
  run_slice = λ s. (waited, s + 1);
  monotonic = λ s. s;
}

abbrev owns_one : Owned ℕ
owns_one = record { live = 7 ∷ []; next = 8; faults = 0; rest = 0 }

resolve_proxies_for_url-releases_example :
    let after = (resolve_proxies_for_url silent (λ n. []) 6 5 (text "http://site/") owns_one).1 in
    (after.live ≡ 7 ∷ []) × (after.faults ≡ 0)
resolve_proxies_for_url-releases_example =
    resolve_proxies_for_url-releases silent (λ n. []) 6 5 (text "http://site/") owns_one

pump-enough_example : pump silent 6 5 owns_one ≡ pump silent 9 5 owns_one
pump-enough_example =
    pump-enough silent 5 6 9 owns_one (λ s h. omega arith) (omega arith) (omega arith)

-- a client whose transports are the targets themselves
abbrev plain_httpx : Httpx ℕ Target ℕ Bool ℕ
plain_httpx = record {
  factory = λ target. responded target;
  send_on = λ t r s. (responded 0, s);
  parse_url = λ url. responded (url, url);
  is_failover_error = λ x. x;
  own_error = λ e. true;
  monotonic = λ s. s;
  b64 = λ t. t;
}

abbrev told : Text × List (Text × Text)
told = (text "http://a", (text "X", text "1") ∷ [])

-- a manager is the headers that it was made with
abbrev manager_with : Text → Dict Text Text → ℕ → Dict Text Text
manager_with proxy headers kwargs = headers

abbrev own_manager : Text → ℕ → ℕ → Dict Text Text × ℕ
own_manager proxy kwargs s = ([], s)

proxy_manager_for-own_example :
    (made : ℕ) × ((proxy_manager_for
        (λ p. [])
        manager_with
        own_manager
        (some told)
        (text "http://a")
        3
        (after_calls
          (λ p. [])
          manager_with
          own_manager
          ((some (text "http://a", []), text "http://a", 1) ∷ (none, text "http://a", 2) ∷ [])
          (record { proxy_manager = []; rest = 0 }))).0
      ≡ make_manager (λ p. []) manager_with own_manager told made)
proxy_manager_for-own_example =
    proxy_manager_for-own (λ p. []) manager_with own_manager
      ((some (text "http://a", []), text "http://a", 1) ∷ (none, text "http://a", 2) ∷ []) 0 told 3

abbrev session_made : ℕ → ℕ → ℕ × ℕ
session_made kwargs s = (s, s + 1)

object_paths-reply_of_example :
    object_paths (
      reply_of
        ((text "   variant       array [\n         ", text "/org/1")
          ∷ (text "\n         ", text "/org/2")
          ∷ [])
        (text "\n      ]\n"))
    ≡ text "/org/1" ∷ text "/org/2" ∷ []
object_paths-reply_of_example =
    object_paths-reply_of
      ((text "   variant       array [\n         ", text "/org/1")
        ∷ (text "\n         ", text "/org/2")
        ∷ [])
      (text "\n      ]\n") ((refl, (refl, refl)), ((refl, (refl, refl)), tt)) refl

close_all-closes_example :
    let w =
      (close plain_httpx (noted (λ t (n : ℕ). (ok tt, n + 1))) (
        perform_all plain_httpx
          (λ t (n : ℕ). (ok tt, n + 1))
          (use_for (some squid) ∷ use_for none ∷ close_all ∷ use_for (some backup) ∷ [])
          (record { by_proxy = []; rest = record { made = []; closed = []; rest = 0 } }))).1 in
    (w.rest.closed ≡ w.rest.made) × (w.by_proxy ≡ [])
close_all-closes_example =
    close_all-closes plain_httpx (λ t (n : ℕ). (ok tt, n + 1))
      (use_for (some squid) ∷ use_for none ∷ close_all ∷ use_for (some backup) ∷ []) 0 (λ t n. refl)
