-- ===== src/Pac/Addresses/Sorting.antt =====
-- src/proxylib/pac/_functions.py: what `sortIpAddressList` does to the order of the addresses.
use mathlib.Core.List.{Perm}
use mathlib.Core.List.Perm
use proxylib.Prelude.{
  ◌≡◌, ap, Bool, true, false, some, List, [], ◌∷◌, map, arith, Bool-cases, Option-cases, inl, inr,
}
use proxylib.Python.Exec.{ok}
use proxylib.Python.Text.{Text}
use proxylib.Python.Ip.{Address, ip_address}
use proxylib.Pac.Addresses.{insert, sort, address_le, keyed, sort_keyed, sort_addresses}

module _ {A : Type 0} (le : A → A → Bool) where
  -- each element is not after the next
  abbrev pub InOrder : List A → Type 0
  InOrder [] = Unit {0}
  InOrder (x ∷ []) = Unit {0}
  InOrder (x ∷ y ∷ ys) = (le x y ≡ true) × InOrder (y ∷ ys)

  insert-InOrder :
      (total : (a b : A) → le a b ≡ false → le b a ≡ true) (x : A) (ys : List A)
      → InOrder ys
      → InOrder (insert le x ys)
  unfolding insert
  insert-InOrder total x [] h = tt
  insert-InOrder total x (y ∷ []) h = ground (arith, total x y)
  insert-InOrder total x (y ∷ z ∷ zs) h =
      ground (arith, h, total x y, insert-InOrder total x (z ∷ zs) h.1)

  sort-InOrder :
      (total : (a b : A) → le a b ≡ false → le b a ≡ true) (xs : List A) → InOrder (sort le xs)
  unfolding sort
  sort-InOrder total [] = tt
  sort-InOrder total (x ∷ xs) = insert-InOrder total x (sort le xs) (sort-InOrder total xs)

  insert-perm : (x : A) (ys : List A) → Perm (insert le x ys) (x ∷ ys)
  unfolding insert
  insert-perm x [] = Perm.refl (x ∷ [])
  insert-perm x (y ∷ ys) = elim (Bool-cases (le x y)) [
    | inl e ↦ rw e (Perm.refl (x ∷ y ∷ ys))
    | inr e ↦ rw e (Perm.trans (Perm.cons y (insert-perm x ys)) (Perm.swap x y ys))
  ]

  sort-perm : (xs : List A) → Perm (sort le xs) xs
  unfolding sort
  sort-perm [] = Perm.refl []
  sort-perm (x ∷ xs) = Perm.trans (insert-perm x (sort le xs)) (Perm.cons x (sort-perm xs))

keyed-texts :
    (addrs : List Text) (ks : List (Text × Address))
    → keyed addrs ≡ some ks
    → map (λ k. k.0) ks ≡ addrs
unfolding keyed
keyed-texts [] ks h = ground (arith, h)
keyed-texts (s ∷ ss) ks h = elim (Option-cases (ip_address s)) [
  | inl e ↦ absurd (ground (arith, e, h))
  | inr (a, e) ↦ elim (Option-cases (keyed ss)) [
    | inl f ↦ absurd (ground (arith, e, f, h))
    | inr (rest, f) ↦
        let split : ks ≡ (s, a) ∷ rest = ground (arith, e, f, h) in
        rw split (ap (λ ts. s ∷ ts) (keyed-texts ss rest f))
  ]
]

sort_keyed-ok :
    (ks : List (Text × Address)) (out : List Text)
    → sort_keyed ks ≡ ok out
    → out ≡ map (λ k. k.0) (sort (λ j k. address_le j.1 k.1) ks)
unfolding sort_keyed
sort_keyed-ok ks out h = ground (arith, h)

address_le-total : (a b : Address) → address_le a b ≡ false → address_le b a ≡ true
unfolding address_le
address_le-total a b h = ground (arith, h)

-- When `sortIpAddressList` sorts a list of addresses, what it gives are the texts of the list, each as
-- often as it was there, and the numbers of their addresses do not fall.
pub sort_addresses-InOrder :
    (addrs out : List Text) (ks : List (Text × Address))
    → keyed addrs ≡ some ks
    → sort_addresses addrs ≡ ok out
    → (js : List (Text × Address)) × (out ≡ map (λ j. j.0) js)
      × Perm js ks
      × (map (λ k. k.0) ks ≡ addrs)
      × InOrder (λ j k. address_le j.1 k.1) js
unfolding sort_addresses
sort_addresses-InOrder addrs out ks valid h = (
  sort (λ j k. address_le j.1 k.1) ks,
  sort_keyed-ok ks out (rw (sort_addresses, valid) at h),
  sort-perm (λ j k. address_le j.1 k.1) ks,
  keyed-texts addrs ks valid,
  sort-InOrder (λ j k. address_le j.1 k.1) (λ j k. address_le-total j.1 k.1) ks,
)
