-- ===== src/Wrappers/Rotation.antt =====
-- src/proxylib/wrappers.py: the answers of `RoundRobin` over many lookups.
use mathlib.Core.List.{Perm, perm_middle, append-nil}
use mathlib.Core.List.Perm
use native.Mathlib.Nat.{add-zero, mod-add-mod, mod-eq_of_lt}
use proxylib.Prelude.{
  ℕ, zero, suc, ◌+◌, ◌%◌, ◌≤◌, ◌<◌, ◌≡◌, refl, ap, sym, ◌∙◌, subst, true, Option, none, some, [],
  ◌∷◌, ◌++◌, arith, length, take, drop, take-append-drop,
}
use proxylib.Python.Exec.{Result, ok}
use proxylib.Python.Text.{Text}
use proxylib.Python.Dict
use proxylib.Python.Dict.{Dict, Lawful, get-remove, set_absent}
use proxylib.Net.{Netimps}
use proxylib.Proxy.{Proxy}
use proxylib.Proxy.Key.{same_proxy, same_proxy_iff}
use proxylib.Lookup.{Proxies, ProxyMap, lookup}
use proxylib.Wrappers.Trim.{trim_last}
use proxylib.Wrappers.{
  Positions, World, same_answer, position_of, advance, rotated, max_answers, round_robin_lookup,
}

pub same_answer_refl : (ps : Proxies) → same_answer ps ps ≡ true
unfolding same_answer
same_answer_refl [] = refl
same_answer_refl (none ∷ ps) = same_answer_refl ps
same_answer_refl (some p ∷ ps) = ground (arith, (same_proxy_iff p p).1 refl, same_answer_refl ps)

same_answer_sym : (ps qs : Proxies) → same_answer ps qs ≡ true → same_answer qs ps ≡ true
unfolding same_answer
same_answer_sym [] [] h = refl
same_answer_sym [] (q ∷ qs) h = cc
same_answer_sym (none ∷ ps) [] h = cc
same_answer_sym (some p ∷ ps) [] h = cc
same_answer_sym (none ∷ ps) (none ∷ qs) h = same_answer_sym ps qs h
same_answer_sym (none ∷ ps) (some q ∷ qs) h = cc
same_answer_sym (some p ∷ ps) (none ∷ qs) h = cc
same_answer_sym (some p ∷ ps) (some q ∷ qs) h =
    ground (arith, same_proxy_iff p q, same_proxy_iff q p, same_answer_sym ps qs)

same_proxy_transfer : (p q r : Proxy) → same_proxy p q ≡ true → same_proxy p r ≡ same_proxy q r
unfolding same_proxy
same_proxy_transfer p q r h = rw ((same_proxy_iff p q).0 h) refl

same_answer_transfer :
    (ps qs rs : Proxies) → same_answer ps qs ≡ true → same_answer ps rs ≡ same_answer qs rs
unfolding same_answer
same_answer_transfer [] [] rs h = refl
same_answer_transfer [] (q ∷ qs) rs h = cc
same_answer_transfer (none ∷ ps) [] rs h = cc
same_answer_transfer (some p ∷ ps) [] rs h = cc
same_answer_transfer (none ∷ ps) (some q ∷ qs) rs h = cc
same_answer_transfer (some p ∷ ps) (none ∷ qs) rs h = cc
same_answer_transfer (none ∷ ps) (none ∷ qs) [] h = refl
same_answer_transfer (none ∷ ps) (none ∷ qs) (none ∷ rs) h = same_answer_transfer ps qs rs h
same_answer_transfer (none ∷ ps) (none ∷ qs) (some r ∷ rs) h = refl
same_answer_transfer (some p ∷ ps) (some q ∷ qs) [] h = refl
same_answer_transfer (some p ∷ ps) (some q ∷ qs) (none ∷ rs) h = refl
same_answer_transfer (some p ∷ ps) (some q ∷ qs) (some r ∷ rs) h =
    ground (arith, same_proxy_transfer p q r, same_answer_transfer ps qs rs)

pub same_answer-Lawful : Lawful same_answer
same_answer-Lawful = record {
  reflexive = same_answer_refl;
  symmetric = same_answer_sym;
  transfer = same_answer_transfer;
}

position_of-advance :
    (ps : Proxies) (positions : Positions)
    → position_of ps (advance ps positions) ≡ (position_of ps positions + 1) % length ps
unfolding advance
position_of-advance ps positions =
    let d = Dict.remove same_answer positions ps in
    let n = (position_of ps positions + 1) % length ps in
    let gone : Dict.get same_answer d ps ≡ none =
      get-remove same_answer same_answer-Lawful positions ps ps ∙ rw (same_answer_refl ps) refl in
    rw (set_absent same_answer d ps n gone) (
      ap (λ (o : Option ℕ). elim o [ none ↦ 0 | some m ↦ m ])
        (trim_last same_answer same_answer-Lawful max_answers d ps n (omega arith) gone))

perm_swap : (xs ys : Proxies) → Perm (xs ++ ys) (ys ++ xs)
perm_swap [] ys = rw (append-nil ys) (Perm.refl ys)
perm_swap (x ∷ xs) ys = Perm.trans (Perm.cons x (perm_swap xs ys)) (Perm.symm (perm_middle ys xs))

-- A rotated answer holds the same entries.
pub rotated-perm : (n : ℕ) (ps : Proxies) → Perm (rotated n ps) ps
rotated-perm n ps =
    subst (λ qs. Perm (rotated n ps) qs) (take-append-drop n ps) (perm_swap (drop n ps) (take n ps))

one_more : (p k : ℕ) → (p + k) + 1 ≡ p + suc k
one_more p k = omega arith

module _ {S : Type 0} ⦃net : Netimps⦄ (inner : ProxyMap (World S)) (url : Text) where
  -- the state after `k` lookups
  abbrev pub after_lookups : ℕ → World S → World S
  after_lookups zero w = w
  after_lookups (suc k) w = (round_robin_lookup inner url (after_lookups k w)).1

  -- a wrapped map that gives one answer and changes nothing
  abbrev pub AlwaysAnswers : Proxies → Type 0
  AlwaysAnswers ps = (w : World S) → lookup inner url w ≡ (ok ps, w)

  round_robin_step :
      (ps : Proxies) (w : World S)
      → AlwaysAnswers ps
      → 2 ≤ length ps
      → round_robin_lookup inner url w ≡ (
        ok (rotated (position_of ps w.positions) ps),
        record w { positions = advance ps w.positions },
      )
  unfolding round_robin_lookup
  round_robin_step ps w steady two = ground (arith, steady w)

  position_after :
      (ps : Proxies) (w : World S) (k : ℕ)
      → AlwaysAnswers ps
      → 2 ≤ length ps
      → position_of ps w.positions < length ps
      → position_of ps (after_lookups k w).positions ≡ (position_of ps w.positions + k) % length ps
  position_after ps w zero steady two start =
      sym
        (ap (λ (n : ℕ). n % length ps) (add-zero (position_of ps w.positions)) ∙ mod-eq_of_lt start)
  position_after ps w (suc k) steady two start =
      let p = position_of ps w.positions in
      ap (λ (r : Result Proxies × World S). position_of ps r.1.positions)
        (round_robin_step ps (after_lookups k w) steady two)
      ∙ position_of-advance ps (after_lookups k w).positions
      ∙ ap (λ (n : ℕ). (n + 1) % length ps) (position_after ps w k steady two start)
      ∙ mod-add-mod (p + k) (length ps) 1
      ∙ ap (λ (n : ℕ). n % length ps) (one_more p k)

  -- With a wrapped map that always gives the same answer of two entries or more, a lookup
  -- that `k` others went before gives that answer rotated by `k` places from where its rotation
  -- stood, if that is a place of the answer.
  pub round_robin_rotates :
      (ps : Proxies) (w : World S) (k : ℕ)
      → AlwaysAnswers ps
      → 2 ≤ length ps
      → position_of ps w.positions < length ps
      → (round_robin_lookup inner url (after_lookups k w)).0
        ≡ ok (rotated ((position_of ps w.positions + k) % length ps) ps)
  round_robin_rotates ps w k steady two start =
      ap (λ (r : Result Proxies × World S). r.0)
        (round_robin_step ps (after_lookups k w) steady two)
      ∙ ap (λ (n : ℕ). ok (rotated n ps)) (position_after ps w k steady two start)
