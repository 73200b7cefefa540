-- ===== src/Python/Dict.antt =====
-- Python's `dict` and `OrderedDict`: the entries in insertion order, the oldest first. Keys are
-- compared by a test that the caller gives.
use proxylib.Prelude.{
  ◌+◌, ◌≤◌, ◌≡◌, refl, Bool, true, Option, none, some, List, [], ◌∷◌, ◌++◌, arith, if◌then◌else◌,
  length, length-append, is_some, Option-cases, inl, inr,
}
use proxylib.Python.Text.{◌==◌, ==_iff, ==_refl}

abbrev pub Dict {ℓ} : Type ℓ → Type ℓ → Type ℓ
Dict K V = List (K × V)

module _ {ℓ} {K V : Type ℓ} (eq : K → K → Bool) where
  -- `d.get(k)`
  unfoldable pub get : Dict K V → K → Option V
  get [] k = none
  get ((j, v) ∷ d) k = if eq j k then some v else get d k

  -- `k in d`
  abbrev pub has : Dict K V → K → Bool
  has d k = is_some (get d k)

  -- `d.pop(k, None)`
  unfoldable pub remove : Dict K V → K → Dict K V
  remove [] k = []
  remove ((j, v) ∷ d) k = let rest = remove d k in if eq j k then rest else (j, v) ∷ rest

  -- `d[k] = v`: a key that is there keeps its place
  unfoldable pub set : Dict K V → K → V → Dict K V
  set [] k v = (k, v) ∷ []
  set ((j, w) ∷ d) k v = if eq j k then (j, v) ∷ d else (j, w) ∷ set d k v

  -- `d.move_to_end(k)`
  unfoldable pub move_to_end : Dict K V → K → Dict K V
  unfolding get remove
  move_to_end d k = elim (get d k) [ none ↦ d | some v ↦ remove d k ++ (k, v) ∷ [] ]

  -- `d.setdefault(k, v)`
  unfoldable pub setdefault : Dict K V → K → V → Dict K V
  unfolding get
  setdefault d k v = if has d k then d else d ++ (k, v) ∷ []

  pub length-remove-le : (d : Dict K V) (k : K) → length (remove d k) ≤ length d
  unfolding remove
  length-remove-le [] k = omega arith
  length-remove-le ((j, v) ∷ d) k = ground (arith, length-remove-le d k)

  pub length-set-le : (d : Dict K V) (k : K) (v : V) → length (set d k v) ≤ length d + 1
  unfolding set
  length-set-le [] k v = omega arith
  length-set-le ((j, w) ∷ d) k v = ground (arith, length-set-le d k v)

  pub length-remove_of_get :
      (d : Dict K V) (k : K) (v : V) → get d k ≡ some v → length (remove d k) + 1 ≤ length d
  unfolding get remove
  length-remove_of_get [] k v h = absurd (ground arith)
  length-remove_of_get ((j, w) ∷ d) k v h =
      ground (arith, length-remove_of_get d k v, length-remove-le d k)

  pub length-move_to_end-le : (d : Dict K V) (k : K) → length (move_to_end d k) ≤ length d
  unfolding move_to_end
  length-move_to_end-le d k = elim (Option-cases (get d k)) [
    | inl e ↦ rw (e, move_to_end) (omega arith)
    | inr (v, e) ↦
        rw (e, move_to_end)
          (omega
            (arith, length-append {ℓ} (remove d k) ((k, v) ∷ []), length-remove_of_get d k v e))
  ]

module _ {ℓ} {K V : Type ℓ} (eq : K → K → Bool) where
  pub move_to_end_of_get :
      (d : Dict K V) (k : K) (v : V)
      → get eq d k ≡ some v
      → move_to_end eq d k ≡ remove eq d k ++ (k, v) ∷ []
  unfolding move_to_end
  move_to_end_of_get d k v e = rw (e, move_to_end) refl

  pub set_absent :
      (d : Dict K V) (k : K) (v : V) → get eq d k ≡ none → set eq d k v ≡ d ++ (k, v) ∷ []
  unfolding get set
  set_absent [] k v h = refl
  set_absent ((j, u) ∷ d) k v h = ground (arith, set_absent d k v)

-- A test of keys that is an equivalence.
pub record Lawful {ℓ} {K : Type ℓ} (eq : K → K → Bool) : Type ℓ where
  pub reflexive : (a : K) → eq a a ≡ true
  pub symmetric : (a b : K) → eq a b ≡ true → eq b a ≡ true
  pub transfer : (a b c : K) → eq a b ≡ true → eq a c ≡ eq b c

module _ {ℓ} {K V : Type ℓ} (eq : K → K → Bool) (law : Lawful eq) where
  pub get-set :
      (d : Dict K V) (k j : K) (v : V)
      → get eq (set eq d k v) j ≡ (if eq k j then some v else get eq d j)
  unfolding get set
  get-set [] k j v = refl
  get-set ((i, w) ∷ d) k j v =
      ground (arith, law.transfer i k j, law.transfer i j k, law.symmetric k j, get-set d k j v)

  pub get-remove :
      (d : Dict K V) (k j : K) → get eq (remove eq d k) j ≡ (if eq k j then none else get eq d j)
  unfolding get remove
  get-remove [] k j = ground arith
  get-remove ((i, w) ∷ d) k j =
      ground (arith, law.transfer i k j, law.transfer i j k, law.symmetric k j, get-remove d k j)

  pub get-append :
      (d : Dict K V) (k j : K) (v : V)
      → get eq (d ++ (k, v) ∷ []) j
        ≡ (elim (get eq d j) [ none ↦ if eq k j then some v else none | some w ↦ some w ])
  unfolding get
  get-append [] k j v = refl
  get-append ((i, w) ∷ d) k j v = ground (arith, get-append d k j v)

pub text-Lawful : Lawful ◌==◌
text-Lawful = record {
  reflexive = ==_refl;
  symmetric = λ a b h. ground (arith, ==_iff a b, ==_iff b a);
  transfer = λ a b c h. ground (arith, ==_iff a b);
}
