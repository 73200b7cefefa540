-- ===== src/System/WinHttp/Releasing.antt =====
-- src/proxylib/system/_nt.py: a `WinHTTPProxyMap` leaves no string and no session over.
use proxylib.Prelude.{
  ℕ, ◌≡◌, refl, Bool, true, false, Option, none, some, List, [], Bool-cases, not, ◌||◌, inl, inr,
  or_else,
}
use proxylib.Python.Exec.{Result, ok, raise, Result-cases}
use proxylib.Python.Text.{Text, is_empty}
use proxylib.Net.{Netimps}
use proxylib.System.Owned.{Owned, Use, use_all, acquire}
use proxylib.System.Owned.Balance.{
  Same, OneMore, Same-refl, Same-trans, release-Same, acquire-OneMore, Gives, Same-rest, itself,
  Tidy, Gives-Same, use_all-Gives,
}
use proxylib.System.Windows.{
  IeProxySettings, Queried, worked, refused, is_login_failure, config_from_ie, manual_lookup,
  query_twice, winhttp_answer, winhttp_ask, winhttp_getitem,
}
use proxylib.SystemConfig.Keeping.{manual_map-rest}
use proxylib.System.WinHttp.Freeing.{read_ie_proxy_config-Same, query_proxy_for_url-Same}
use proxylib.System.WinHttp.{
  WinHttp, read_ie_proxy_config, query_proxy_for_url, init, close, getitem, look, use_up, lifetime,
}

module _ {S : Type 0} ⦃net : Netimps⦄ where
  manual_lookup-rest :
      (ie : Option IeProxySettings) (url : Text) (s : S) → (manual_lookup ie url s).1 ≡ s
  unfolding manual_lookup
  manual_lookup-rest none url s = refl
  manual_lookup-rest (some ie) url s = elim (Result-cases (config_from_ie ie)) [
    | inl (c, e) ↦ rw e (manual_map-rest c.proxies c.bypass url s)
    | inr (x, e) ↦ rw e refl
  ]

module _ {S : Type 0} (win : WinHttp S) where
  module _ ⦃net : Netimps⦄ (session : ℕ) where
    query_twice-Same :
        (url : Text) (auto_detect : Bool) (auto_config_url : Text) (w : Owned S)
        → Same w
            (query_twice
              (read_ie_proxy_config win)
              (query_proxy_for_url win session)
              url
              auto_detect
              auto_config_url
              w).1
    unfolding query_twice
    query_twice-Same url auto_detect auto_config_url w =
        let query = query_proxy_for_url win session url auto_detect auto_config_url in
        let first = query_proxy_for_url-Same win session url auto_detect auto_config_url false w in
        elim (Bool-cases (is_login_failure (query false w).0)) [
          | inr b ↦ rw b first
          | inl b ↦ rw b (
              Same-trans w (query false w).1 _ first (
                query_proxy_for_url-Same win session url auto_detect auto_config_url true
                  (query false w).1))
        ]

    manual_lookup-Same :
        (ie : Option IeProxySettings) (url : Text) (w : Owned S) → Same w (manual_lookup ie url w).1
    manual_lookup-Same ie url w = rw (manual_lookup-rest ie url w) (Same-refl w)

    winhttp_answer-Same :
        (url : Text) (ie : Option IeProxySettings) (w : Owned S) (r : Queried × Owned S)
        → Same w r.1
        → Same w
            (winhttp_answer (read_ie_proxy_config win) (query_proxy_for_url win session) url ie r).1
    unfolding winhttp_answer
    winhttp_answer-Same url ie w (worked proxy, s) h = h
    winhttp_answer-Same url ie w (refused code, s) h =
        Same-trans w s _ h (manual_lookup-Same ie url s)

    winhttp_ask-Same :
        (url : Text) (ie : Option IeProxySettings) (w : Owned S)
        → Same w
            (winhttp_ask (read_ie_proxy_config win) (query_proxy_for_url win session) url ie w).1
    unfolding winhttp_ask
    winhttp_ask-Same url none w = manual_lookup-Same none url w
    winhttp_ask-Same url (some ie) w =
        let auto_config_url = or_else ie.auto_config_url [] in
        elim (Bool-cases (ie.auto_detect || not (is_empty auto_config_url))) [
          | inr b ↦ rw b (manual_lookup-Same (some ie) url w)
          | inl b ↦ rw b (
              winhttp_answer-Same url (some ie) w _
                (query_twice-Same url ie.auto_detect auto_config_url w))
        ]

    getitem_open-Same : (url : Text) (w : Owned S) → Same w (getitem win (some session) url w).1
    unfolding getitem winhttp_getitem
    getitem_open-Same url w = elim (Result-cases (read_ie_proxy_config win w).0) [
      | inr (e, k) ↦ rw k (read_ie_proxy_config-Same win w)
      | inl (ie, k) ↦ rw k (
          Same-trans w (read_ie_proxy_config win w).1 _ (read_ie_proxy_config-Same win w)
            (winhttp_ask-Same url ie (read_ie_proxy_config win w).1))
    ]

  module _ ⦃net : Netimps⦄ where
    -- A lookup of a `WinHTTPProxyMap`, with a session or without, whatever WinHTTP answers and whatever
    -- the lookup raises, frees each string that it was given exactly once and nothing else.
    pub getitem-frees :
        (session : Option ℕ) (url : Text) (w : Owned S)
        → ((getitem win session url w).1.live ≡ w.live)
          × ((getitem win session url w).1.faults ≡ w.faults)
    unfolding getitem
    getitem-frees none url w = (refl, refl)
    getitem-frees (some session) url w =
        let kept = getitem_open-Same session url w in (kept.owned, kept.sound)

    look-Tidy : (url : Text) → Tidy (look win url)
    unfolding look getitem
    look-Tidy url a b none h = h
    look-Tidy url a b (some session) h =
        Gives-Same a b _ (some session) h (getitem_open-Same session url b)

    close-Tidy : Tidy (close win)
    unfolding close
    close-Tidy a b none h = h
    close-Tidy a b (some h) k = release-Same a b _ h k (Same-rest b _)

    -- what making a map leaves
    abbrev Made : Owned S → Result (Option ℕ) × Owned S → Type 0
    Made w (raise e, b) = Same w b
    Made w (ok session, b) = Gives itself w (session, b)

    -- the state besides may change
    opened-OneMore :
        (w : Owned S) (s s' : S)
        → let (session, w') = acquire (record w { rest = s }) in
          OneMore w (record w' { rest = s' }) session
    opened-OneMore w s s' =
        let held = acquire-OneMore w (record w { rest = s }) (Same-rest w s) in
        record { owned = held.owned; new = held.new; later = held.later; sound = held.sound }

    init-Made : (w : Owned S) → Made w (init win w)
    unfolding init
    init-Made w = elim (Bool-cases win.is_windows) [
      | inr b ↦ rw b (Same-refl w)
      | inl b ↦ rw b (elim (Bool-cases (win.open_session w.rest).0) [
        | inr o ↦ rw o (Same-rest w _)
        | inl o ↦ rw o (opened-OneMore w _ _)
      ])
    ]

    close-Same :
        (a b : Owned S) (session : Option ℕ)
        → Gives itself a (session, b)
        → Same a (close win session b).1
    unfolding close
    close-Same a b none h = h
    close-Same a b (some h) k = release-Same a b _ h k (Same-rest b _)

    use_up-Same :
        (uses : List Use) (a : Owned S) (made : Result (Option ℕ)) (b : Owned S)
        → Made a (made, b)
        → Same a (use_up win uses made b)
    unfolding use_up
    use_up-Same uses a (raise e) b h = h
    use_up-Same uses a (ok session) b h =
        let after = use_all (look win) (close win) uses session b in
        close-Same a after.1 after.0
          (use_all-Gives (look win) (close win) look-Tidy close-Tidy uses a b session h)

    -- Whatever a program does with a `WinHTTPProxyMap`, in whatever order it looks URLs up and closes it, as
    -- often as it likes, and also where its making raises or gets no session: when the map is gone, its
    -- session and every string were given back exactly once, and nothing else was.
    pub lifetime-releases :
        (uses : List Use) (w : Owned S)
        → ((lifetime win uses w).live ≡ w.live) × ((lifetime win uses w).faults ≡ w.faults)
    unfolding lifetime
    lifetime-releases uses w =
        let kept = use_up-Same uses w (init win w).0 (init win w).1 (init-Made w) in
        (kept.owned, kept.sound)
