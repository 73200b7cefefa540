-- ===== src/System/WinHttp/Freeing.antt =====
-- src/proxylib/system/_nt.py: `_read_ie_proxy_config` and `_query_proxy_for_url` leave no string over.
use proxylib.Prelude.{ℕ, Bool, Option, none, some, Bool-cases, inl, inr}
use proxylib.Python.Text.{Text}
use proxylib.Wrappers.{bypass}
use proxylib.System.Owned.{Owned}
use proxylib.System.Owned.Balance.{
  Same, Same-refl, Same-trans, release-Same, acquire-OneMore, Gives, Same-rest, Gives-after,
  release-Gives, release-later,
}
use proxylib.System.Windows.{IeProxySettings}
use proxylib.System.WinHttp.{
  WinHttp, ProxyInfo, allocate, global_free, read_settings, read_info, query_result,
  read_ie_proxy_config, query_proxy_for_url, options_for,
}

-- a pointer and its text
abbrev pointer_of : ℕ × Text → ℕ
pointer_of p = p.0

module _ {S : Type 0} where
  allocate-Gives : (t : Option Text) (w : Owned S) → Gives pointer_of w (allocate t w)
  unfolding allocate
  allocate-Gives none w = Same-refl w
  allocate-Gives (some t) w = acquire-OneMore w w (Same-refl w)

  -- the last string that is left is freed
  free-last :
      (a b : Owned S) (p : Option (ℕ × Text)) → Gives pointer_of a (p, b) → Same a (global_free p b)
  unfolding global_free
  free-last a b none h = h
  free-last a b (some p) h = release-Same a b b p.0 h (Same-refl b)

  -- the older of two strings is freed
  free-older :
      (a b c : Owned S) (p q : Option (ℕ × Text))
      → Gives pointer_of a (p, b)
      → Gives pointer_of b (q, c)
      → Gives pointer_of a (q, global_free p c)
  unfolding global_free
  free-older a b c none q h k = Gives-after pointer_of a b (q, c) h k
  free-older a b c (some p) q h k = release-Gives pointer_of a b p.0 (q, c) h k

  -- a string that is younger than the one that is freed
  free-under :
      (a b c d : Owned S) (p q : Option (ℕ × Text)) (r : Option (ℕ × Text))
      → Gives pointer_of a (p, b)
      → Gives pointer_of b (q, c)
      → Gives pointer_of c (r, d)
      → Gives pointer_of (global_free p c) (r, global_free p d)
  unfolding global_free
  free-under a b c d none q r h k l = l
  free-under a b c d (some p) q r h k l = release-later pointer_of a b c d p.0 q r h k l

  read_info-Same : (info : ProxyInfo) (w : Owned S) → Same w (read_info info w).1
  unfolding read_info
  read_info-Same info w =
      let (proxy, w1) = allocate info.proxy w in
      let (bypass, w2) = allocate info.proxy_bypass w1 in
      free-last w (global_free proxy w2) bypass (
        free-older w w1 w2 proxy bypass (allocate-Gives info.proxy w)
          (allocate-Gives info.proxy_bypass w1))

  read_settings-Same : (cfg : Option IeProxySettings) (w : Owned S) → Same w (read_settings cfg w).1
  unfolding read_settings
  read_settings-Same none w = Same-refl w
  read_settings-Same (some cfg) w =
      let (url, w1) = allocate cfg.auto_config_url w in
      let (proxy, w2) = allocate cfg.proxy w1 in
      let (bypass, w3) = allocate cfg.proxy_bypass w2 in
      let u = allocate-Gives cfg.auto_config_url w in
      let p = allocate-Gives cfg.proxy w1 in
      let b = allocate-Gives cfg.proxy_bypass w2 in
      free-last w (global_free proxy (global_free url w3)) bypass (
        free-older w (global_free url w2) (global_free url w3) proxy bypass
          (free-older w w1 w2 url proxy u p) (free-under w w1 w2 w3 url proxy bypass u p b))

module _ {S : Type 0} (win : WinHttp S) where
  pub read_ie_proxy_config-Same : (w : Owned S) → Same w (read_ie_proxy_config win w).1
  unfolding read_ie_proxy_config
  read_ie_proxy_config-Same w =
      let (cfg, s) = win.get_ie_proxy_config w.rest in
      elim (Bool-cases win.is_windows) [
        | inr b ↦ rw b (Same-refl w)
        | inl b ↦ rw b (
            Same-trans w (record w { rest = s }) _ (Same-rest w s)
              (read_settings-Same cfg (record w { rest = s })))
      ]

  query_result-Same :
      (answer : Option ProxyInfo) (w : Owned S) → Same w (query_result win answer w).1
  unfolding query_result
  query_result-Same none w = Same-refl w
  query_result-Same (some info) w = read_info-Same info w

  pub query_proxy_for_url-Same :
      (session : ℕ) (url : Text) (auto_detect : Bool) (auto_config_url : Text) (auto_logon : Bool)
      (w : Owned S)
      → Same w (query_proxy_for_url win session url auto_detect auto_config_url auto_logon w).1
  unfolding query_proxy_for_url
  query_proxy_for_url-Same session url auto_detect auto_config_url auto_logon w =
      let options = options_for auto_detect auto_config_url auto_logon in
      let (answer, s) = win.get_proxy_for_url session url options (win.set_last_error 0 w.rest) in
      Same-trans w (record w { rest = s }) _ (Same-rest w s)
        (query_result-Same answer (record w { rest = s }))
