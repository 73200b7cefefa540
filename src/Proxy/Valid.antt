-- ===== src/Proxy/Valid.antt =====
-- src/proxylib/proxy.py: the invariant of `Proxy`, its constructor and unpickling.
use proxylib.Prelude.{
  ℕ, ◌<◌, ◌≡◌, refl, ◌≢◌, Bool, true, false, not, ◌&&◌, Option, none, some, List, [], ◌∷◌, arith,
  all, is_nil, Bool-cases, inl, inr,
}
use proxylib.Python.Exec.{ok}
use proxylib.Python.Text.{Text, text, lower, lower_char, starts_with, is_empty, ◌==◌}
use proxylib.Proxy.{
  Proxy, alias, is_gateway_scheme, has_gateway_prefix, is_socks, header_ok, port_ok, absolute_path,
  given, check_path, init, rebuild,
}

-- A path stands on a gateway and nowhere else.
abbrev pub PathFits : Text → Option Text → Type 0
PathFits scheme none = (is_gateway_scheme scheme ≡ false) × (has_gateway_prefix scheme ≡ false)
PathFits scheme (some p) = (is_gateway_scheme scheme ≡ true) × (absolute_path p ≡ true)

abbrev pub PortFits : Option ℕ → Type 0
PortFits none = Unit {0}
PortFits (some n) = (0 < n) × (n < 65536)

abbrev pub NotEmpty : Option Text → Type 0
NotEmpty o = o ≢ some []

pub record IsValid (p : Proxy) : Type 0 where
  pub scheme_given : p.scheme ≢ []
  pub scheme_lower : lower p.scheme ≡ p.scheme
  pub scheme_canonical : alias p.scheme ≡ p.scheme
  pub host_given : p.host ≢ []
  pub host_lower : lower p.host ≡ p.host
  pub port_fits : PortFits p.port
  pub username_given : NotEmpty p.username
  pub password_given : NotEmpty p.password
  pub path_fits : PathFits p.scheme p.path
  pub headers_fit : all header_ok p.headers ≡ true
  pub no_socks_headers : is_socks p.scheme ≡ true → p.headers ≡ []

lower_char_idem : (c : ℕ) → lower_char (lower_char c) ≡ lower_char c
unfolding lower_char
lower_char_idem c = ground arith

pub lower_idem : (s : Text) → lower (lower s) ≡ lower s
lower_idem [] = refl
lower_idem (c ∷ s) = cc (lower_char_idem c, lower_idem s)

pub lower-alias : (s : Text) → lower s ≡ s → lower (alias s) ≡ alias s
unfolding alias lower_char
lower-alias s h = elim (Bool-cases (s == text "proxy")) [
  | inl e ↦ rw e refl
  | inr e ↦ rw e (elim (Bool-cases (s == text "socks")) [ inl f ↦ rw f refl | inr f ↦ rw f h ])
]

pub alias_idem : (s : Text) → alias (alias s) ≡ alias s
unfolding alias ◌==◌
alias_idem s = elim (Bool-cases (s == text "proxy")) [
  | inl e ↦ rw e refl
  | inr e ↦
      rw e (elim (Bool-cases (s == text "socks")) [ inl f ↦ rw f refl | inr f ↦ rw (f, e, f) refl ])
]

given-NotEmpty : (o : Option Text) → NotEmpty (given o)
given-NotEmpty none = λ h. cc
given-NotEmpty (some []) = λ h. cc
given-NotEmpty (some (c ∷ s)) = λ h. cc

given_of_NotEmpty : (o : Option Text) → NotEmpty o → given o ≡ o
given_of_NotEmpty none h = refl
given_of_NotEmpty (some []) h = absurd (h refl)
given_of_NotEmpty (some (c ∷ s)) h = refl

port_ok-fits : (o : Option ℕ) → port_ok o ≡ true → PortFits o
unfolding port_ok
port_ok-fits none h = tt
port_ok-fits (some n) h = ground arith

fits-port_ok : (o : Option ℕ) → PortFits o → port_ok o ≡ true
unfolding port_ok
fits-port_ok none h = refl
fits-port_ok (some n) h = ground arith

check_path-fits :
    (scheme : Text) (path kept : Option Text)
    → check_path scheme path ≡ ok kept
    → PathFits scheme kept
unfolding check_path
check_path-fits scheme path none h = ground arith
check_path-fits scheme path (some k) h = ground arith

check_path_of_fits :
    (scheme : Text) (path : Option Text) → PathFits scheme path → check_path scheme path ≡ ok path
unfolding check_path ◌==◌
check_path_of_fits scheme none h = ground arith
check_path_of_fits scheme (some []) h = absurd (unfold absolute_path starts_with in ground arith)
check_path_of_fits scheme (some (c ∷ s)) h = ground arith

lower-ne-nil : (s : Text) → is_empty s ≡ false → lower s ≢ []
lower-ne-nil [] h = absurd (ground arith)
lower-ne-nil (c ∷ s) h = λ e. ground arith

no_headers :
    (hs : List (Text × Text)) (socks : Bool)
    → (not (is_nil hs) && socks) ≡ false
    → socks ≡ true
    → hs ≡ []
no_headers [] socks h e = refl
no_headers (x ∷ hs) socks h e = ground arith

is_empty_of_ne : (s : Text) → s ≢ [] → is_empty s ≡ false
is_empty_of_ne [] h = absurd (h refl)
is_empty_of_ne (c ∷ s) h = refl

headers_allowed :
    (hs : List (Text × Text)) (socks : Bool)
    → (socks ≡ true → hs ≡ [])
    → (not (is_nil hs) && socks) ≡ false
headers_allowed [] socks h = refl
headers_allowed (x ∷ hs) true h = absurd (ground (arith, h refl))
headers_allowed (x ∷ hs) false h = refl

module _ (scheme host : Text) (port : Option ℕ) (username password path : Option Text)
    (headers : List (Text × Text)) {p : Proxy}
    (made : init scheme host port username password path headers ≡ ok p) where
  init_checks :
      (is_empty (alias (lower scheme)) ≡ false)
      × (is_empty host ≡ false)
      × (port_ok port ≡ true)
      × (all header_ok headers ≡ true)
      × ((not (is_nil headers) && is_socks (alias (lower scheme))) ≡ false)
  unfolding init
  init_checks = ground arith

  init_path : check_path (alias (lower scheme)) path ≡ ok p.path
  unfolding init
  init_path = ground arith

  init_fields :
      (p.scheme ≡ alias (lower scheme))
      × (p.host ≡ lower host)
      × (p.port ≡ port)
      × (p.username ≡ given username)
      × (p.password ≡ given password)
      × (p.headers ≡ headers)
  unfolding init
  init_fields = ground arith

  -- Whatever the arguments, a proxy that the constructor returns has a scheme and a host in lower
  -- case, no alias for a scheme, a port from 1 to 65535 or none, no empty credential, a path exactly
  -- on a gateway (absolute, without "?" or "#"), well-formed headers, and none on a SOCKS proxy.
  pub init-IsValid : IsValid p
  init-IsValid =
      let (s, h, o, u, w, hs) = init_fields in
      let (c1, c2, c3, c4, c5) = init_checks in
      record {
        scheme_given = rw s (λ e. ground (arith, e));
        scheme_lower = rw s (lower-alias (lower scheme) (lower_idem scheme));
        scheme_canonical = rw s (alias_idem (lower scheme));
        host_given = rw h (lower-ne-nil host c2);
        host_lower = rw h (lower_idem host);
        port_fits = rw o (port_ok-fits port c3);
        username_given = rw u (given-NotEmpty username);
        password_given = rw w (given-NotEmpty password);
        path_fits = rw s (check_path-fits (alias (lower scheme)) path p.path init_path);
        headers_fit = rw hs c4;
        no_socks_headers = λ e. rw hs (no_headers headers _ c5 (rw s at e));
      }

-- Pickling a proxy that the constructor made and unpickling it gives the same proxy.
pub rebuild_of_IsValid : (p : Proxy) → IsValid p → rebuild p ≡ ok p
unfolding rebuild init
rebuild_of_IsValid p v = ground (
  arith,
  v.scheme_lower,
  v.scheme_canonical,
  v.host_lower,
  is_empty_of_ne p.scheme v.scheme_given,
  is_empty_of_ne p.host v.host_given,
  fits-port_ok p.port v.port_fits,
  given_of_NotEmpty p.username v.username_given,
  given_of_NotEmpty p.password v.password_given,
  check_path_of_fits p.scheme p.path v.path_fits,
  v.headers_fit,
  headers_allowed p.headers (is_socks p.scheme) v.no_socks_headers,
)
