-- ===== src/Wrappers/Trim.antt =====
-- Dropping the oldest entries of a dictionary that is over its limit.
use proxylib.Prelude.{
  ℕ, ◌≤◌, ◌≡◌, Bool, none, some, List, [], ◌∷◌, ◌++◌, arith, length, ltb, inl, inr, Bool-cases, All,
}
use proxylib.Python.Dict
use proxylib.Python.Dict.{Dict, get-append, Lawful}
use proxylib.Wrappers.{trim}

pub length-trim-le {ℓ} : {A : Type ℓ} (n : ℕ) (d : List A) → length (trim n d) ≤ n
unfolding trim
length-trim-le n [] = omega arith
length-trim-le n (x ∷ d) = ground (arith, length-trim-le n d)

-- What holds of all entries still does when some are dropped.
pub All-trim : {A : Type 0} (P : A → Type 0) (n : ℕ) (d : List A) → All P d → All P (trim n d)
unfolding trim
All-trim P n [] h = tt
All-trim P n (e ∷ d) (p, h) = elim (Bool-cases (ltb n (length (e ∷ d)))) [
  | inl over ↦ rw (trim, over) (All-trim P n d h)
  | inr fits ↦ rw (trim, fits) (p, h)
]

pub All-remove :
    {K V : Type 0} (eq : K → K → Bool) (P : K × V → Type 0) (d : Dict K V) (k : K)
    → All P d
    → All P (Dict.remove eq d k)
unfolding Dict.remove
All-remove eq P [] k h = tt
All-remove eq P ((j, v) ∷ d) k (p, h) = elim (Bool-cases (eq j k)) [
  | inl same ↦ rw (Dict.remove, same) (All-remove eq P d k h)
  | inr other ↦ rw (Dict.remove, other) (p, All-remove eq P d k h)
]

module _ {K V : Type 0} (eq : K → K → Bool) (law : Lawful eq) where
  -- the newest entry stays
  pub trim_last :
      (n : ℕ) (d : Dict K V) (k : K) (v : V)
      → 1 ≤ n
      → Dict.get eq d k ≡ none
      → Dict.get eq (trim n (d ++ (k, v) ∷ [])) k ≡ some v
  unfolding trim Dict.get
  trim_last n [] k v h e = ground (arith, law.reflexive k)
  trim_last n ((j, u) ∷ d) k v h e =
      ground (arith, trim_last n d k v, get-append eq law d k k v, law.reflexive k)
