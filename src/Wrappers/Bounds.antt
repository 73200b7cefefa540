-- ===== src/Wrappers/Bounds.antt =====
-- src/proxylib/wrappers.py: what `RoundRobin` remembers stays within its limits.
use native.Mathlib.Nat.{mod-lt}
use proxylib.Prelude.{
  ℕ, ◌+◌, ◌%◌, ◌≤◌, ◌<◌, ◌≡◌, ◌∙◌, refl, none, List, [], ◌∷◌, ◌++◌, arith, length, ltb, All,
  All-append, Bool-cases, inl, inr,
}
use proxylib.Python.Exec.{Result-cases}
use proxylib.Python.Text.{Text}
use proxylib.Python.Dict
use proxylib.Python.Dict.{Dict, get-remove, set_absent}
use proxylib.Net.{Netimps}
use proxylib.Lookup.{Proxies, ProxyMap, lookup}
use proxylib.Wrappers.{
  Positions, World, same_answer, position_of, advance, max_answers, round_robin_lookup,
}
use proxylib.Wrappers.Trim.{length-trim-le, All-trim, All-remove}
use proxylib.Wrappers.Rotation.{same_answer-Lawful, same_answer_refl}

-- every position is a place of its answer, and at most 1024 answers have one
abbrev pub InRange : Positions → Type 0
InRange positions = All (λ e. e.1 < length e.0) positions × (length positions ≤ max_answers)

advance-InRange :
    (ps : Proxies) (positions : Positions)
    → 2 ≤ length ps
    → InRange positions
    → InRange (advance ps positions)
unfolding advance
advance-InRange ps positions two (within, few) =
    let d = Dict.remove same_answer positions ps in
    let n = (position_of ps positions + 1) % length ps in
    let P = (λ (e : Proxies × ℕ). e.1 < length e.0) in
    let gone : Dict.get same_answer d ps ≡ none =
      get-remove same_answer same_answer-Lawful positions ps ps ∙ rw (same_answer_refl ps) refl in
    (
      rw (set_absent same_answer d ps n gone) (
          All-trim P max_answers (d ++ (ps, n) ∷ []) (
            All-append P d ((ps, n) ∷ []) (All-remove same_answer P positions ps within)
              (mod-lt _ (omega (arith, two)), tt))),
      length-trim-le max_answers _,
    )

module _ {S : Type 0} ⦃net : Netimps⦄ (inner : ProxyMap (World S)) where
  round_robin_lookup-InRange :
      (url : Text) (w : World S)
      → (lookup inner url w).1.positions ≡ w.positions
      → InRange w.positions
      → InRange (round_robin_lookup inner url w).1.positions
  unfolding round_robin_lookup
  round_robin_lookup-InRange url w leaves h = elim (Result-cases (lookup inner url w).0) [
    | inr (e, r) ↦ rw (r, leaves) h
    | inl (ps, r) ↦ rw r (elim (Bool-cases (ltb (length ps) 2)) [
      | inl short ↦ rw (short, leaves) h
      | inr long ↦ rw (long, leaves) (advance-InRange ps w.positions (ground (arith, long)) h)
    ])
  ]

  -- the state after lookups of these URLs
  abbrev pub after_urls : List Text → World S → World S
  after_urls [] w = w
  after_urls (url ∷ urls) w = after_urls urls (round_robin_lookup inner url w).1

  -- After lookups of any URLs, whatever the wrapped map answers or raises, every position that a
  -- `RoundRobin` remembers is a place of its answer and it remembers at most 1024 of them, if both hold
  -- before. The wrapped map is taken not to touch the positions.
  pub round_robin_lookup-bounds :
      (urls : List Text) (w : World S)
      → ((url : Text) (w : World S) → (lookup inner url w).1.positions ≡ w.positions)
      → InRange w.positions
      → InRange (after_urls urls w).positions
  round_robin_lookup-bounds [] w leaves h = h
  round_robin_lookup-bounds (url ∷ urls) w leaves h =
      round_robin_lookup-bounds urls (round_robin_lookup inner url w).1 leaves
        (round_robin_lookup-InRange url w (leaves url w) h)
