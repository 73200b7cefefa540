-- ===== src/Integrations/Requests/Managers.antt =====
-- src/proxylib/integrations/requests.py: `proxy_manager_for`, which gives a proxy with headers a manager
-- of its own. urllib3's managers and what the adapter's own `proxy_manager_for` does are arguments.
use proxylib.Prelude.{
  ◌≡◌, refl, sym, ap, ◌∙◌, ◌↔◌, Bool, true, ◌&&◌, Option, none, some, List, [], ◌∷◌, arith,
  if◌then◌else◌, Bool-cases, Option-cases, inl, inr,
}
use proxylib.Python.Text.{Text, ◌==◌, ==_iff, ==_refl}
use proxylib.Python.Dict
use proxylib.Python.Dict.{Dict, Lawful, get-set}
use proxylib.Proxy.Key.{same_headers, same_headers_iff}

-- the value of `_CHOSEN`: the proxy's URL and its headers
abbrev pub Chosen : Type 0
Chosen = Text × List (Text × Text)

unfoldable pub same_chosen : Chosen → Chosen → Bool
same_chosen (u, hs) (v, ks) = u == v && same_headers hs ks

-- `headers.update(…)`
unfoldable pub updated_headers : Dict Text Text → List (Text × Text) → Dict Text Text
updated_headers headers [] = headers
updated_headers headers ((name, value) ∷ more) =
    updated_headers (Dict.set ◌==◌ headers name value) more

-- the managers that the adapter keeps under a proxy and its headers, and what else it keeps
pub record Adapter (M S : Type 0) : Type 0 where
  pub proxy_manager : Dict Chosen M
  pub rest : S

module _ {K M S : Type 0} (proxy_headers : Text → Dict Text Text)
    (proxy_from_url : Text → Dict Text Text → K → M) (base : Text → K → S → M × S) where
  -- the manager that is made for what was chosen
  unfoldable pub make_manager : Chosen → K → M
  make_manager (proxy, headers) kwargs =
      proxy_from_url proxy (updated_headers (proxy_headers proxy) headers) kwargs

  unfoldable pub chosen_manager : Chosen → K → Adapter M S → M × Adapter M S
  chosen_manager chosen kwargs a = elim (Dict.get same_chosen a.proxy_manager chosen) [
    | some manager ↦ (manager, a)
    | none ↦ (
      make_manager chosen kwargs,
      record a {
        proxy_manager = Dict.set same_chosen a.proxy_manager chosen (make_manager chosen kwargs);
      },
    )
  ]

  own_manager : Text → K → Adapter M S → M × Adapter M S
  own_manager proxy kwargs a =
      let (manager, s) = base proxy kwargs a.rest in (manager, record a { rest = s })

  -- `proxy_manager_for`; the first argument is `_CHOSEN.get()`
  unfoldable pub proxy_manager_for : Option Chosen → Text → K → Adapter M S → M × Adapter M S
  unfolding own_manager
  proxy_manager_for none proxy kwargs a = own_manager proxy kwargs a
  proxy_manager_for (some chosen) proxy kwargs a =
      if chosen.0 == proxy then chosen_manager chosen kwargs a else own_manager proxy kwargs a

  -- `proxy_manager_for` calls, one after another
  abbrev pub Managed : Dict Chosen M → Type 0
  Managed d =
      (chosen : Chosen) (manager : M)
      → Dict.get same_chosen d chosen ≡ some manager
      → (kwargs : K) × (manager ≡ make_manager chosen kwargs)

  unfoldable pub after_calls : List (Option Chosen × Text × K) → Adapter M S → Adapter M S
  after_calls [] a = a
  after_calls ((chosen, proxy, kwargs) ∷ calls) a =
      after_calls calls (proxy_manager_for chosen proxy kwargs a).1

same_chosen_iff : (j k : Chosen) → (same_chosen j k ≡ true) ↔ (j ≡ k)
unfolding same_chosen
same_chosen_iff (u, hs) (v, ks) = (
  λ h. ground (arith, ==_iff u v, same_headers_iff hs ks),
  λ h. ground (arith, ==_iff u v, same_headers_iff hs ks),
)

same_chosen-Lawful : Lawful same_chosen
same_chosen-Lawful = record {
  reflexive = λ a. (same_chosen_iff a a).1 refl;
  symmetric = λ a b h. (same_chosen_iff b a).1 (sym ((same_chosen_iff a b).0 h));
  transfer = λ a b c h. ap (λ x. same_chosen x c) ((same_chosen_iff a b).0 h);
}

module _ {K M S : Type 0} (proxy_headers : Text → Dict Text Text)
    (proxy_from_url : Text → Dict Text Text → K → M) (base : Text → K → S → M × S) where
  Managed-nil : Managed {S = S} proxy_headers proxy_from_url base []
  unfolding Dict.get
  Managed-nil chosen manager found = cc

  Managed-set :
      (d : Dict Chosen M) (made : Chosen) (kwargs : K)
      → Managed proxy_headers proxy_from_url base d
      → Managed proxy_headers proxy_from_url base
          (Dict.set same_chosen d made (make_manager proxy_headers proxy_from_url base made kwargs))
  Managed-set d made kwargs h chosen manager found =
      let v = make_manager proxy_headers proxy_from_url base made kwargs in
      let split = sym found ∙ get-set same_chosen same_chosen-Lawful d made chosen v in
      elim (Bool-cases (same_chosen made chosen)) [
        | inl same ↦
            let e : made ≡ chosen = (same_chosen_iff made chosen).0 same in
            let there : some manager ≡ some v = rw same at split in
            (
              kwargs,
              manager_of there
                  ∙ ap (λ k. make_manager proxy_headers proxy_from_url base k kwargs) e,
            )
        | inr other ↦ h chosen manager (sym (rw other at split))
      ]
    where
      manager_of : {a b : M} → ◌≡◌ {A = Option M} (some a) (some b) → a ≡ b
      manager_of e = cc

  proxy_manager_for-Managed :
      (chosen : Option Chosen) (proxy : Text) (kwargs : K) (a : Adapter M S)
      → Managed proxy_headers proxy_from_url base a.proxy_manager
      → Managed proxy_headers proxy_from_url base
          (proxy_manager_for proxy_headers proxy_from_url base chosen proxy kwargs
            a).1.proxy_manager
  unfolding proxy_manager_for chosen_manager
  proxy_manager_for-Managed none proxy kwargs a h = h
  proxy_manager_for-Managed (some chosen) proxy kwargs a h = elim (Bool-cases (chosen.0 == proxy)) [
    | inr other ↦ rw (proxy_manager_for, other) h
    | inl same ↦ elim (Option-cases (Dict.get same_chosen a.proxy_manager chosen)) [
      | inr (m, e) ↦ rw (proxy_manager_for, same, chosen_manager, e) h
      | inl e ↦
          rw (proxy_manager_for, same, chosen_manager, e)
            (Managed-set a.proxy_manager chosen kwargs h)
    ]
  ]

  after_calls-Managed :
      (calls : List (Option Chosen × Text × K)) (a : Adapter M S)
      → Managed proxy_headers proxy_from_url base a.proxy_manager
      → Managed proxy_headers proxy_from_url base
          (after_calls proxy_headers proxy_from_url base calls a).proxy_manager
  unfolding after_calls
  after_calls-Managed [] a h = h
  after_calls-Managed ((chosen, proxy, kwargs) ∷ calls) a h =
      after_calls-Managed calls _ (proxy_manager_for-Managed chosen proxy kwargs a h)

  -- After any calls on a new adapter, the manager for a proxy that was chosen with its headers is one
  -- that was made for this proxy and these headers, never one made for other headers.
  pub proxy_manager_for-own :
      (calls : List (Option Chosen × Text × K)) (s : S) (chosen : Chosen) (kwargs : K)
      → (made : K) × ((proxy_manager_for proxy_headers proxy_from_url base
            (some chosen)
            chosen.0
            kwargs
            (after_calls proxy_headers proxy_from_url base calls
              (record { proxy_manager = []; rest = s }))).0
          ≡ make_manager proxy_headers proxy_from_url base chosen made)
  unfolding proxy_manager_for chosen_manager
  proxy_manager_for-own calls s chosen kwargs =
      let a =
        after_calls proxy_headers proxy_from_url base calls
          (record { proxy_manager = []; rest = s }) in
      let h = after_calls-Managed calls (record { proxy_manager = []; rest = s }) Managed-nil in
      elim (Option-cases (Dict.get same_chosen a.proxy_manager chosen)) [
        | inr (m, e) ↦ (
          (h chosen m e).0,
          rw (proxy_manager_for, ==_refl chosen.0, chosen_manager, e) (h chosen m e).1,
        )
        | inl e ↦ (kwargs, rw (proxy_manager_for, ==_refl chosen.0, chosen_manager, e) refl)
      ]
