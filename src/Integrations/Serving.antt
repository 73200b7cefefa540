-- ===== src/Integrations/Serving.antt =====
-- What a request through Integrations/Failover comes to, whichever map answered it.
use proxylib.Prelude.{
  ℕ, ◌≡◌, ◌≢◌, refl, ◌∙◌, sym, ap, Bool, true, false, not, Option, none, List, [], ◌∷◌, ◌++◌, arith,
  keep, Bool-cases, inl, inr, Member, here, there,
}
use proxylib.Python.Exec.{Error, ok, raise, key_error, is_a, Result-cases}
use proxylib.Python.Text.{Text}
use proxylib.Net.{Netimps}
use proxylib.Proxy.{Proxy}
use proxylib.Lookup.{Proxies, ProxyMap, lookup}
use proxylib.Lookup.Chains.{lookup-ne-nil}
use proxylib.Health.{Breaker, is_bad, order_by_health}
use proxylib.Health.Ordering.{order_by_health-keep}
use proxylib.Integrations.Failover.{
  Outcome, responded, failed, Outcome-cases, Reply, replied, raised, Client, Sender, marked,
  send_along, candidates, send_answer, send_on_map,
}
use proxylib.Integrations.Settling.{send_along-settles, send_along-over}

module _ {A : Type 0} where
  Member-append_left : {a : A} {xs : List A} (ys : List A) → Member a xs → Member a (xs ++ ys)
  Member-append_left ys here = here
  Member-append_left ys (there m) = there (Member-append_left ys m)

  Member-append_right : {a : A} (xs : List A) {ys : List A} → Member a ys → Member a (xs ++ ys)
  Member-append_right [] m = m
  Member-append_right (x ∷ xs) m = there (Member-append_right xs m)

  Member-keep :
      (p : A → Bool) {a : A} {xs : List A} → p a ≡ true → Member a xs → Member a (keep p xs)
  Member-keep p h here = rw h here
  Member-keep p h (there {x} m) = elim (Bool-cases (p x)) [
    | inl kept ↦ rw kept (there (Member-keep p h m))
    | inr dropped ↦ rw dropped (Member-keep p h m)
  ]

module _ ⦃net : Netimps⦄ where
  Member-order_by_health :
      (now : ℕ) (breaker : Breaker) {e : Option Proxy} {es : Proxies}
      → Member e es
      → Member e (order_by_health now breaker es)
  Member-order_by_health now breaker {e} {es} m =
      rw (order_by_health-keep now breaker es) (elim (Bool-cases (is_bad now breaker e)) [
        | inl bad ↦ Member-append_right _ (Member-keep (is_bad now breaker) bad m)
        | inr good ↦
            Member-append_left _
              (Member-keep (λ e. not (is_bad now breaker e)) (ground (arith, good)) m)
      ])

-- the request got a response
abbrev pub Answered : {E R : Type 0} → Reply E R → Type 0
Answered {R = R} a = (r : R) × (a ≡ replied (responded r))

module _ {S E R : Type 0} (k : Sender S E R) where
  -- every failure lets the next entry be tried
  abbrev pub AlwaysOver : Type 0
  AlwaysOver =
      (e : Option Proxy) (s : S) (x : E) → (k.attempt e s).0 ≡ failed x → k.fails_over x ≡ true

  abbrev pub Works : Option Proxy → Type 0
  Works e = (s : S) → (r : R) × ((k.attempt e s).0 ≡ responded r)

module _ {S E R : Type 0} ⦃net : Netimps⦄ (k : Sender S E R) where
  send_along-responded :
      (d : Option Proxy) (es : Proxies) (c : Client S) (r : R)
      → (k.attempt d c.rest).0 ≡ responded r
      → (send_along k (d ∷ es) c).0 ≡ replied (responded r)
  unfolding send_along
  send_along-responded d es c r h = rw (send_along, h) refl

  send_along-succeeds :
      {e : Option Proxy} (es : Proxies) (c : Client S)
      → k.failover ≡ true
      → Member e es
      → Works k e
      → AlwaysOver k
      → Answered (send_along k es c).0
  send_along-succeeds [] c on m works over = elim m [ ]
  send_along-succeeds (d ∷ es) c on here works over =
      let (r, h) = works c.rest in (r, send_along-responded d es c r h)
  send_along-succeeds (d ∷ []) c on (there m) works over = elim m [ ]
  send_along-succeeds (d ∷ d' ∷ es) c on (there m) works over =
      elim (Outcome-cases (k.attempt d c.rest).0) [
        | inl (r, h) ↦ (r, send_along-responded d (d' ∷ es) c r h)
        | inr (x, h) ↦
            rw (send_along-over k d d' es c x h (ground (arith, on, over d c.rest x h)))
              (send_along-succeeds (d' ∷ es) (marked k d (k.attempt d c.rest).1 c) on m works over)
      ]

  Member-candidates :
      (c : Client S) {e : Option Proxy} {es : Proxies}
      → k.failover ≡ true
      → Member e es
      → Member e (candidates k c es)
  unfolding candidates
  Member-candidates c on m = rw (candidates, on) (Member-order_by_health _ _ m)

  -- With `failover`, a request succeeds whenever one of the entries that the map answers works, in any
  -- place of the answer and with any entries marked bad, if the failures of the others let the next
  -- entry be tried.
  pub send_on_map-succeeds :
      (m : ProxyMap (Client S)) (url : Text) (c : Client S) (entries : Proxies) (e : Option Proxy)
      → k.failover ≡ true
      → (lookup m url c).0 ≡ ok entries
      → Member e entries
      → Works k e
      → AlwaysOver k
      → Answered (send_on_map k m url c).0
  unfolding send_on_map send_answer
  send_on_map-succeeds m url c entries e on found mem works over =
      rw (send_on_map, found) (send_along-succeeds _ _ on (Member-candidates _ on mem) works over)

  first_candidate :
      (e : Option Proxy) (es : Proxies) (c : Client S)
      → (d : Option Proxy) × (ds : Proxies) × (candidates k c (e ∷ es) ≡ d ∷ ds)
  unfolding candidates
  first_candidate e es c = elim (Bool-cases k.failover) [
    | inl on ↦ rw on (a_member (Member-order_by_health _ _ here))
    | inr off ↦ rw off (e, [], refl)
  ]
    where
      a_member :
          {x : Option Proxy} {xs : Proxies}
          → Member x xs
          → (d : Option Proxy) × (ds : Proxies) × (xs ≡ d ∷ ds)
      a_member (here {xs}) = (_, xs, refl)
      a_member (there {x} {xs} m) = (x, xs, refl)

  send_answer-replies :
      (es : Proxies) (c : Client S) (x : Error) → es ≢ [] → (send_answer k es c).0 ≢ raised x
  unfolding send_answer
  send_answer-replies [] c x ne h = ne refl
  send_answer-replies (e ∷ es) c x ne h =
      let (d, ds, split) = first_candidate e es c in
      let s = send_along-settles k d ds c in
      replied_raised (sym (ap (λ y. y.0) s.ends) ∙ (sym (ap (λ l. (send_along k l c).0) split) ∙ h))
    where
      replied_raised : {o : Outcome E R} → replied o ≡ raised x → ⊥
      replied_raised h = cc

  -- The only exceptions of this library's own that a request raises are those of the map's lookup, less
  -- `KeyError`, which means DIRECT: in particular the loop never ends without an outcome of an attempt.
  pub send_on_map-raises :
      (m : ProxyMap (Client S)) (url : Text) (c : Client S) (x : Error)
      → (send_on_map k m url c).0 ≡ raised x
      → ((lookup m url c).0 ≡ raise x) × (is_a x key_error ≡ false)
  unfolding send_on_map
  send_on_map-raises m url c x h = elim (Result-cases (lookup m url c).0) [
    | inl (entries, found) ↦ absurd (
        send_answer-replies entries (lookup m url c).1 x (lookup-ne-nil m url c entries found)
          (rw (send_on_map, found) at h))
    | inr (e, found) ↦ elim (Bool-cases (is_a e key_error)) [
      | inl no_opinion ↦ absurd (
          send_answer-replies (none ∷ []) (lookup m url c).1 x (λ z. cc)
            (rw (send_on_map, found, no_opinion) at h))
      | inr other ↦
          let same = same_error (rw (send_on_map, found, other) at h) in
          (found ∙ ap raise same, rw⁻¹ same other)
    ]
  ]
    where
      same_error : {a b : Error} → ◌≡◌ {A = Reply E R} (raised a) (raised b) → a ≡ b
      same_error h = cc
