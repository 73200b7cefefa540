-- ===== src/Integrations/Settling.antt =====
-- Where the loop of Integrations/Failover ends, and what it leaves in the breaker.
use proxylib.Prelude.{
  ℕ, ◌+◌, ◌<◌, ◌≤◌, ◌≡◌, refl, ap, subst, Bool, true, false, not, ◌&&◌, ◌||◌, Option, none, some,
  [], ◌∷◌, ◌++◌, arith, if◌then◌else◌, is_nil, Bool-cases, inl, inr, Member, here, there,
}
use proxylib.Net.{Netimps}
use proxylib.Proxy.{Proxy}
use proxylib.Lookup.{Proxies}
use proxylib.Health.{Breaker, health_key, mark_bad, is_bad}
use proxylib.Health.Ordering.{is_bad-mark_bad, same_endpoint-Lawful}
use proxylib.Integrations.Failover.{
  Outcome, responded, failed, Outcome-cases, Reply, replied, Client, Sender, left, marked,
  send_along,
}

module _ {S E R : Type 0} ⦃net : Netimps⦄ (k : Sender S E R) where
  -- the entries were attempted in turn, and each failed so that the next could be tried
  pub data Passed : Proxies → Client S → Client S → Type 0 where
    start : {c : Client S} → Passed [] c c
    over :
        {e : Option Proxy} {es : Proxies} {c c' : Client S} (x : E)
        → (k.attempt e c.rest).0 ≡ failed x
        → k.failover && k.fails_over x ≡ true
        → Passed es (marked k e (k.attempt e c.rest).1 c) c'
        → Passed (e ∷ es) c c'

  -- the attempt of `e` is the last one: a response, an error that must not be retried, or nothing left
  abbrev pub settles : Proxies → Outcome E R → Bool
  settles after (responded r) = true
  settles after (failed x) = is_nil after || not (k.failover && k.fails_over x)

  abbrev pub settled : Option Proxy → S → Outcome E R → Client S → Client S
  settled e s (responded r) c = left s c
  settled e s (failed x) c = if k.failover && k.fails_over x then marked k e s c else left s c

  -- how a run over `es` ends
  pub record Settled (es : Proxies) (c : Client S) (end : Reply E R × Client S) : Type 0 where
    pub before : Proxies
    pub last : Option Proxy
    pub after : Proxies
    pub reached : Client S
    pub split : es ≡ before ++ last ∷ after
    pub passed : Passed before c reached
    pub stops : settles after (k.attempt last reached.rest).0 ≡ true
    pub ends : end ≡ (
      replied (k.attempt last reached.rest).0,
      settled last (k.attempt last reached.rest).1 (k.attempt last reached.rest).0 reached,
    )

module _ {S E R : Type 0} ⦃net : Netimps⦄ (k : Sender S E R) where
  settles-last : (o : Outcome E R) → settles k [] o ≡ true
  settles-last (responded r) = refl
  settles-last (failed x) = refl

  not_settled :
      (es : Proxies) (o : Outcome E R)
      → settles k es o ≡ false
      → (x : E) × (o ≡ failed x) × (k.failover && k.fails_over x ≡ true)
  not_settled es (responded r) h = cc
  not_settled es (failed x) h = (x, refl, ground (arith, h))

  send_along-stops :
      (e : Option Proxy) (es : Proxies) (c : Client S)
      → settles k es (k.attempt e c.rest).0 ≡ true
      → send_along k (e ∷ es) c ≡ (
        replied (k.attempt e c.rest).0,
        settled k e (k.attempt e c.rest).1 (k.attempt e c.rest).0 c,
      )
  unfolding send_along
  send_along-stops e es c h = elim (Outcome-cases (k.attempt e c.rest).0) [
    | inl (r, g) ↦ rw (send_along, g) refl
    | inr (x, g) ↦ rw (send_along, g) (stops_at x (subst (λ o. settles k es o ≡ true) g h))
  ]
    where
      stops_at :
          (x : E)
          → settles k es (failed x) ≡ true
          → (if not (k.failover && k.fails_over x)
              then (replied (failed x), left (k.attempt e c.rest).1 c)
              else if is_nil es
              then (replied (failed x), marked k e (k.attempt e c.rest).1 c)
              else send_along k es (marked k e (k.attempt e c.rest).1 c))
            ≡ (replied (failed x), settled k e (k.attempt e c.rest).1 (failed x) c)
      stops_at x h = ground (arith, h)

  stops-Settled :
      (e : Option Proxy) (es : Proxies) (c : Client S)
      → settles k es (k.attempt e c.rest).0 ≡ true
      → Settled k (e ∷ es) c (send_along k (e ∷ es) c)
  stops-Settled e es c h = record {
    before = [];
    last = e;
    after = es;
    reached = c;
    split = refl;
    passed = start;
    stops = h;
    ends = send_along-stops e es c h;
  }

  over-Settled :
      (e : Option Proxy) (es : Proxies) (c : Client S) (x : E) (end : Reply E R × Client S)
      → (k.attempt e c.rest).0 ≡ failed x
      → k.failover && k.fails_over x ≡ true
      → Settled k es (marked k e (k.attempt e c.rest).1 c) end
      → Settled k (e ∷ es) c end
  over-Settled e es c x end h goes s = record {
    before = e ∷ s.before;
    last = s.last;
    after = s.after;
    reached = s.reached;
    split = ap (λ l. e ∷ l) s.split;
    passed = over x h goes s.passed;
    stops = s.stops;
    ends = s.ends;
  }

  pub send_along-over :
      (e e' : Option Proxy) (es : Proxies) (c : Client S) (x : E)
      → (k.attempt e c.rest).0 ≡ failed x
      → k.failover && k.fails_over x ≡ true
      → send_along k (e ∷ e' ∷ es) c ≡ send_along k (e' ∷ es) (marked k e (k.attempt e c.rest).1 c)
  unfolding send_along
  send_along-over e e' es c x h goes = rw (send_along, h, goes) refl

  -- A request over at least one entry attempts them in turn, each after the one before it failed in a
  -- way that lets the next be tried and was marked bad, up to one that settles it: the first response,
  -- the first error that must not be retried (any error without `failover`), or the last entry's error.
  -- Nothing is attempted after that one, and its outcome is what the caller gets.
  pub send_along-settles :
      (e : Option Proxy) (es : Proxies) (c : Client S)
      → Settled k (e ∷ es) c (send_along k (e ∷ es) c)
  send_along-settles e [] c = stops-Settled e [] c (settles-last (k.attempt e c.rest).0)
  send_along-settles e (e' ∷ es) c =
      elim (Bool-cases (settles k (e' ∷ es) (k.attempt e c.rest).0)) [
        | inl stops ↦ stops-Settled e (e' ∷ es) c stops
        | inr on ↦
            let (x, h, goes) = not_settled (e' ∷ es) (k.attempt e c.rest).0 on in
            let next = send_along-settles e' es (marked k e (k.attempt e c.rest).1 c) in
            rw (send_along-over e e' es c x h goes) (
              over-Settled e (e' ∷ es) c x
                (send_along k (e' ∷ es) (marked k e (k.attempt e c.rest).1 c)) h goes next)
      ]

-- time does not go back while an entry is attempted
abbrev pub Forward : {S E R : Type 0} → Sender S E R → Type 0
Forward k = (e : Option Proxy) (s : _) → k.clock s ≤ k.clock (k.attempt e s).1

module _ ⦃net : Netimps⦄ where
  is_bad-marked :
      (q e : Option Proxy) (at now ttl : ℕ) (breaker : Breaker)
      → 0 < ttl
      → now < at + ttl
      → is_bad now breaker q ≡ true
      → is_bad now (mark_bad e ttl at breaker) q ≡ true
  unfolding mark_bad is_bad
  is_bad-marked q none at now ttl breaker h before bad = bad
  is_bad-marked none (some p) at now ttl breaker h before bad = bad
  is_bad-marked (some q) (some p) at now ttl breaker h before bad =
      rw (is_bad-mark_bad p ttl at now breaker (some q) h) (ground (arith, bad, before))

  is_bad-marked_self :
      (p : Proxy) (at now ttl : ℕ) (breaker : Breaker)
      → 0 < ttl
      → now < at + ttl
      → is_bad now (mark_bad (some p) ttl at breaker) (some p) ≡ true
  is_bad-marked_self p at now ttl breaker h before =
      rw (is_bad-mark_bad p ttl at now breaker (some p) h)
        (ground (arith, before, same_endpoint-Lawful.reflexive (health_key p)))

module _ {S E R : Type 0} ⦃net : Netimps⦄ (k : Sender S E R) (forward : Forward k) where
  Passed-keeps :
      {es : Proxies} {c c' : Client S} (q : Option Proxy) (now : ℕ)
      → Passed k es c c'
      → 0 < k.ttl
      → now < k.clock c.rest + k.ttl
      → is_bad now c.breaker q ≡ true
      → is_bad now c'.breaker q ≡ true
  Passed-keeps q now start h before bad = bad
  Passed-keeps q now (over {e} {es} {c} x f g r) h before bad =
      Passed-keeps q now r h (omega (arith, forward e c.rest)) (
        is_bad-marked q e (k.clock (k.attempt e c.rest).1) now k.ttl c.breaker h
          (omega (arith, forward e c.rest)) bad)

  -- The entries that were passed over on the way, other than DIRECT, stay marked: whatever is attempted
  -- after them, each is bad at any time less than `ttl` after the request began.
  pub Passed-is_bad :
      {es : Proxies} {c c' : Client S} (p : Proxy) (now : ℕ)
      → Passed k es c c'
      → Member (some p) es
      → 0 < k.ttl
      → now < k.clock c.rest + k.ttl
      → is_bad now c'.breaker (some p) ≡ true
  Passed-is_bad p now start m h before = elim m [ ]
  Passed-is_bad p now (over {e} {es} {c} x f g r) here h before =
      Passed-keeps (some p) now r h (omega (arith, forward e c.rest)) (
        is_bad-marked_self p (k.clock (k.attempt e c.rest).1) now k.ttl c.breaker h
          (omega (arith, forward e c.rest)))
  Passed-is_bad p now (over {e} {es} {c} x f g r) (there m) h before =
      Passed-is_bad p now r m h (omega (arith, forward e c.rest))
