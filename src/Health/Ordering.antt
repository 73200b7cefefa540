-- ===== src/Health/Ordering.antt =====
-- src/proxylib/_net.py: `order_by_health`, and what `mark_bad` changes of it.
use mathlib.Core.List.{Perm, perm_middle, append-nil}
use mathlib.Core.List.Perm
use proxylib.Prelude.{
  ℕ, ◌+◌, ◌<◌, ◌≡◌, refl, false, not, Option, none, some, List, [], ◌∷◌, ◌++◌, append_assoc, arith,
  ltb, eqb_iff, if◌then◌else◌, keep, Bool-cases, inl, inr,
}
use proxylib.Python.Text.{==_iff, ==_refl}
use proxylib.Python.Dict.{Lawful, get-set}
use proxylib.Net.{Netimps}
use proxylib.Proxy.{Proxy}
use proxylib.Health.{
  Breaker, same_endpoint, is_skipped, health_key, mark_bad, is_bad, order_from, order_by_health,
}

module _ ⦃net : Netimps⦄ (now : ℕ) (breaker : Breaker) where
  order_from-keep :
      (good bad es : List (Option Proxy))
      → order_from now breaker good bad es
        ≡ (good ++ keep (λ e. not (is_bad now breaker e)) es)
          ++ (bad ++ keep (is_bad now breaker) es)
  unfolding order_from
  order_from-keep good bad [] = rw (append-nil good) (rw (append-nil bad) refl)
  order_from-keep good bad (e ∷ es) = elim (Bool-cases (is_bad now breaker e)) [
    | inl h ↦ rw h (rw (order_from-keep good (bad ++ e ∷ []) es) (simp append_assoc))
    | inr h ↦ rw h (rw (order_from-keep (good ++ e ∷ []) bad es) (simp append_assoc))
  ]

  -- The order puts the entries that are not marked first and the marked ones last, each group in the
  -- order it came in.
  pub order_by_health-keep :
      (es : List (Option Proxy))
      → order_by_health now breaker es
        ≡ keep (λ e. not (is_bad now breaker e)) es ++ keep (is_bad now breaker) es
  unfolding order_by_health
  order_by_health-keep es = order_from-keep [] [] es

  keep-perm :
      (es : List (Option Proxy))
      → Perm (keep (λ e. not (is_bad now breaker e)) es ++ keep (is_bad now breaker) es) es
  keep-perm [] = Perm.refl []
  keep-perm (e ∷ es) = elim (Bool-cases (is_bad now breaker e)) [
    | inl h ↦ rw h (Perm.trans (perm_middle _ _) (Perm.cons e (keep-perm es)))
    | inr h ↦ rw h (Perm.cons e (keep-perm es))
  ]

  -- No entry is lost or added: the result holds the same entries, DIRECT included.
  pub order_by_health-perm : (es : List (Option Proxy)) → Perm (order_by_health now breaker es) es
  order_by_health-perm es = rw (order_by_health-keep es) (keep-perm es)

pub same_endpoint-Lawful : Lawful same_endpoint
same_endpoint-Lawful = record {
  reflexive = λ a. ground (arith, ==_refl a.0, eqb_iff a.1 a.1);
  symmetric = λ a b h. ground (arith, ==_iff a.0 b.0, ==_iff b.0 a.0, eqb_iff a.1 b.1);
  transfer = λ a b c h. ground (arith, ==_iff a.0 b.0, eqb_iff a.1 b.1);
}

module _ ⦃net : Netimps⦄ where
  -- After `mark_bad` at the time `now`, the proxies of the marked endpoint are bad until `ttl` later,
  -- and nothing changes for the others or for DIRECT.
  pub is_bad-mark_bad :
      (p : Proxy) (ttl now later : ℕ) (breaker : Breaker) (e : Option Proxy)
      → 0 < ttl
      → is_bad later (mark_bad (some p) ttl now breaker) e ≡ elim e [
        | none ↦ false
        | some q ↦
            if same_endpoint (health_key p) (health_key q)
            then ltb later (now + ttl)
            else is_bad later breaker (some q)
      ]
  unfolding is_bad mark_bad is_skipped
  is_bad-mark_bad p ttl now later breaker none h = refl
  is_bad-mark_bad p ttl now later breaker (some q) h = ground (
    arith,
    get-set same_endpoint same_endpoint-Lawful breaker (health_key p) (health_key q) (now + ttl),
  )
