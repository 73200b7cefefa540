-- ===== src/Proxy/Key.antt =====
-- Equality of proxies (`_key`, `__eq__` and `__hash__` of src/proxylib/proxy.py): by the fields, the
-- headers sorted with their names in lower case.
use proxylib.Prelude.{
  ℕ, ◌≡◌, refl, ap, ◌↔◌, Bool, true, false, ◌&&◌, Option, none, some, List, [], ◌∷◌, map, arith,
  ltb, eqb, eqb_iff, if◌then◌else◌,
}
use proxylib.Python.Text.{Text, lower, ◌==◌, ==_iff, ==_refl}
use proxylib.Proxy.{Proxy}

-- Python's order of two texts, and of two pairs of texts
unfoldable pub text_le : Text → Text → Bool
text_le [] t = true
text_le (a ∷ s) [] = false
text_le (a ∷ s) (b ∷ t) = let rest = text_le s t in if eqb a b then rest else ltb a b

unfoldable pub pair_le : Text × Text → Text × Text → Bool
pair_le (a, b) (c, d) = if a == c then text_le b d else text_le a c

-- `sorted`
unfoldable pub insert : Text × Text → List (Text × Text) → List (Text × Text)
insert x [] = x ∷ []
insert x (y ∷ ys) = let rest = insert x ys in if pair_le x y then x ∷ y ∷ ys else y ∷ rest

unfoldable pub sort : List (Text × Text) → List (Text × Text)
unfolding insert
sort [] = []
sort (x ∷ xs) = insert x (sort xs)

abbrev pub canonical : Text × Text → Text × Text
canonical h = (lower h.0, h.1)

pub record Key : Type 0 where
  pub scheme : Text
  pub host : Text
  pub port : Option ℕ
  pub username : Option Text
  pub password : Option Text
  pub path : Option Text
  pub headers : List (Text × Text)

unfoldable pub key : Proxy → Key
key p = record {
  scheme = p.scheme;
  host = p.host;
  port = p.port;
  username = p.username;
  password = p.password;
  path = p.path;
  headers = sort (map canonical p.headers);
}

abbrev pub same_number : Option ℕ → Option ℕ → Bool
same_number none none = true
same_number (some a) (some b) = eqb a b
same_number _ _ = false

abbrev pub same_text : Option Text → Option Text → Bool
same_text none none = true
same_text (some a) (some b) = a == b
same_text _ _ = false

unfoldable pub same_headers : List (Text × Text) → List (Text × Text) → Bool
same_headers [] [] = true
same_headers ((a, b) ∷ xs) ((c, d) ∷ ys) = (a == c && b == d) && same_headers xs ys
same_headers _ _ = false

unfoldable pub same_key : Key → Key → Bool
same_key a b =
    a.scheme == b.scheme
    && (a.host == b.host
        && (same_number a.port b.port
            && (same_text a.username b.username
                && (same_text a.password b.password
                    && (same_text a.path b.path && same_headers a.headers b.headers)))))

-- `p == q`
unfoldable pub same_proxy : Proxy → Proxy → Bool
same_proxy p q = same_key (key p) (key q)

same_number_iff : (a b : Option ℕ) → (same_number a b ≡ true) ↔ (a ≡ b)
same_number_iff none none = (λ _. refl, λ _. refl)
same_number_iff (some a) (some b) = (λ h. ground (arith, eqb_iff a b), λ h. ground arith)
same_number_iff none (some b) = (λ h. cc, λ h. cc)
same_number_iff (some a) none = (λ h. cc, λ h. cc)

same_text_iff : (a b : Option Text) → (same_text a b ≡ true) ↔ (a ≡ b)
same_text_iff none none = (λ _. refl, λ _. refl)
same_text_iff (some a) (some b) = (λ h. ap some ((==_iff a b).0 h), λ h. ground (arith, ==_iff a b))
same_text_iff none (some b) = (λ h. cc, λ h. cc)
same_text_iff (some a) none = (λ h. cc, λ h. cc)

pub same_headers_iff : (xs ys : List (Text × Text)) → (same_headers xs ys ≡ true) ↔ (xs ≡ ys)
unfolding same_headers
same_headers_iff [] [] = (λ _. refl, λ _. refl)
same_headers_iff [] (y ∷ ys) = (λ h. cc, λ h. cc)
same_headers_iff (x ∷ xs) [] = (λ h. cc, λ h. cc)
same_headers_iff ((a, b) ∷ xs) ((c, d) ∷ ys) = (
  λ h. ground (arith, ==_iff a c, ==_iff b d, same_headers_iff xs ys),
  λ h. ground (arith, ==_iff a c, ==_iff b d, same_headers_iff xs ys),
)

same_key_iff : (a b : Key) → (same_key a b ≡ true) ↔ (a ≡ b)
unfolding same_key
same_key_iff a b = (
  λ h. ground (
    arith,
    ==_iff a.scheme b.scheme,
    ==_iff a.host b.host,
    same_number_iff a.port b.port,
    same_text_iff a.username b.username,
    same_text_iff a.password b.password,
    same_text_iff a.path b.path,
    same_headers_iff a.headers b.headers,
  ),
  λ h. rw h (
      ground (
        arith,
        ==_refl b.scheme,
        ==_refl b.host,
        (same_number_iff b.port b.port).1 refl,
        (same_text_iff b.username b.username).1 refl,
        (same_text_iff b.password b.password).1 refl,
        (same_text_iff b.path b.path).1 refl,
        (same_headers_iff b.headers b.headers).1 refl,
      )),
)

-- `__eq__` holds of two proxies exactly when their keys are equal.
pub same_proxy_iff : (p q : Proxy) → (same_proxy p q ≡ true) ↔ (key p ≡ key q)
unfolding same_proxy
same_proxy_iff p q = same_key_iff (key p) (key q)
