-- ===== src/System/Owned/Balance.antt =====
-- What a call leaves of the objects that the caller must release: no more than before, or one more.
use proxylib.Prelude.{
  ℕ, ◌≤◌, ◌<◌, ◌≡◌, refl, ap, ◌∙◌, List, [], ◌∷◌, Option, none, some, arith, true, any, eqb,
}
use proxylib.System.Owned.{
  Owned, acquire, remove_first, release, Use, look_up, close_it, use_map, use_all,
}
use proxylib.Python.Text.{Text}

pub remove_head : (r : ℕ) (qs : List ℕ) → remove_first r (r ∷ qs) ≡ qs
unfolding remove_first
remove_head r qs = ground arith

owns_head : (r : ℕ) (qs : List ℕ) → any (λ q. eqb q r) (r ∷ qs) ≡ true
owns_head r qs = ground arith

owns_second : (r q : ℕ) (qs : List ℕ) → any (λ x. eqb x r) (q ∷ r ∷ qs) ≡ true
owns_second r q qs = ground arith

remove_second : (r q : ℕ) (qs : List ℕ) → r < q → remove_first r (q ∷ r ∷ qs) ≡ q ∷ qs
unfolding remove_first
remove_second r q qs h = ground (arith, h)

remove_behind : (p r : ℕ) (qs : List ℕ) → p < r → remove_first p (r ∷ qs) ≡ r ∷ remove_first p qs
unfolding remove_first
remove_behind p r qs h = ground (arith, h)

owns_behind : (p r : ℕ) (qs : List ℕ) → p < r → any (λ q. eqb q p) (r ∷ qs) ≡ any (λ q. eqb q p) qs
owns_behind p r qs h = ground (arith, h)

-- `b` owns what `a` owns, and between them nothing else is released
pub record Same {S : Type 0} (a b : Owned S) : Type 0 where
  pub owned : b.live ≡ a.live
  pub later : a.next ≤ b.next
  pub sound : b.faults ≡ a.faults

-- `b` owns what `a` owns and one reference more
pub record OneMore {S : Type 0} (a b : Owned S) (r : ℕ) : Type 0 where
  pub owned : b.live ≡ r ∷ a.live
  pub new : a.next ≤ r
  pub later : r < b.next
  pub sound : b.faults ≡ a.faults

module _ {S : Type 0} where
  pub Same-refl : (a : Owned S) → Same a a
  Same-refl a = record { owned = refl; later = omega arith; sound = refl }

  pub Same-trans : (a b c : Owned S) → Same a b → Same b c → Same a c
  Same-trans a b c h k = record {
    owned = k.owned ∙ h.owned;
    later = omega (arith, h.later, k.later);
    sound = k.sound ∙ h.sound;
  }

  -- what is acquired, used by code that leaves none over, and released
  pub release-Same : (a b c : Owned S) (r : ℕ) → OneMore a b r → Same b c → Same a (release r c)
  unfolding release
  release-Same a b c r h k = record {
    owned = ap (remove_first r) (k.owned ∙ h.owned) ∙ remove_head r a.live;
    later = omega (arith, h.new, h.later, k.later);
    sound = rw (k.owned ∙ h.owned, owns_head r a.live) (k.sound ∙ h.sound);
  }

  pub acquire-OneMore : (a b : Owned S) → Same a b → OneMore a (acquire b).1 (acquire b).0
  unfolding acquire
  acquire-OneMore a b h = record {
    owned = ap (λ l. b.next ∷ l) h.owned;
    new = h.later;
    later = omega arith;
    sound = h.sound;
  }

  -- the older of two references goes first
  pub release-OneMore :
      (a b c : Owned S) (r q : ℕ) → OneMore a b r → OneMore b c q → OneMore a (release r c) q
  unfolding release
  release-OneMore a b c r q h k = record {
    owned =
        ap (remove_first r) (k.owned ∙ ap (λ l. q ∷ l) h.owned)
        ∙ remove_second r q a.live (omega (arith, h.later, k.new));
    new = omega (arith, h.new, h.later, k.new);
    later = k.later;
    sound = rw (k.owned ∙ ap (λ l. q ∷ l) h.owned, owns_second r q a.live) (k.sound ∙ h.sound);
  }

-- what a call that may give a reference leaves
abbrev pub Gives : {S A : Type 0} → (A → ℕ) → Owned S → Option A × Owned S → Type 0
Gives ref a (none, b) = Same a b
Gives ref a (some x, b) = OneMore a b (ref x)

module _ {S : Type 0} where
  -- the rest of the program's state may change
  pub Same-rest : (w : Owned S) (s : S) → Same w (record w { rest = s })
  Same-rest w s = record { owned = refl; later = omega arith; sound = refl }

  pub Gives-after :
      {A : Type 0} (ref : A → ℕ) (a b : Owned S) (result : Option A × Owned S)
      → Same a b
      → Gives ref b result
      → Gives ref a result
  Gives-after ref a b (none, c) h k = Same-trans a b c h k
  Gives-after ref a b (some x, c) h k = record {
    owned = k.owned ∙ ap (λ l. ref x ∷ l) h.owned;
    new = omega (arith, h.later, k.new);
    later = k.later;
    sound = k.sound ∙ h.sound;
  }

  pub release-Gives :
      {A : Type 0} (ref : A → ℕ) (a b : Owned S) (r : ℕ) (result : Option A × Owned S)
      → OneMore a b r
      → Gives ref b result
      → Gives ref a (result.0, release r result.1)
  release-Gives ref a b r (none, c) h k = release-Same a b c r h k
  release-Gives ref a b r (some x, c) h k = release-OneMore a b c r (ref x) h k

  Gives-later :
      {A : Type 0} (ref : A → ℕ) (a b : Owned S) (q : Option A)
      → Gives ref a (q, b)
      → a.next ≤ b.next
  Gives-later ref a b none h = h.later
  Gives-later ref a b (some x) h = omega (arith, h.new, h.later)

  -- an older object is released before and after
  release-both :
      {A : Type 0} (ref : A → ℕ) (a b : Owned S) (p : ℕ) (r : Option A)
      → p < a.next
      → Gives ref a (r, b)
      → Gives ref (release p a) (r, release p b)
  unfolding release
  release-both ref a b p none h k = record {
    owned = ap (remove_first p) k.owned;
    later = k.later;
    sound = rw (k.owned, k.sound) refl;
  }
  release-both ref a b p (some x) h k = record {
    owned = ap (remove_first p) k.owned ∙ remove_behind p (ref x) a.live (omega (arith, h, k.new));
    new = k.new;
    later = k.later;
    sound = rw (k.owned, k.sound, owns_behind p (ref x) a.live (omega (arith, h, k.new))) refl;
  }

  pub release-later :
      {A : Type 0} (ref : A → ℕ) (a b c d : Owned S) (p : ℕ) (q r : Option A)
      → OneMore a b p
      → Gives ref b (q, c)
      → Gives ref c (r, d)
      → Gives ref (release p c) (r, release p d)
  release-later ref a b c d p q r h k l =
      release-both ref c d p r (omega (arith, h.later, Gives-later ref b c q k)) l

-- the object that a map holds
abbrev pub itself : ℕ → ℕ
itself held = held

-- a use after which the map holds at most one object more than there was before the map
abbrev pub Tidy : {S : Type 0} → (Option ℕ → Owned S → Option ℕ × Owned S) → Type 0
Tidy {S} f =
    (a b : Owned S) (held : Option ℕ) → Gives itself a (held, b) → Gives itself a (f held b)

module _ {S : Type 0} where
  -- a use that leaves the object that the map holds
  pub Gives-Same :
      (a b c : Owned S) (held : Option ℕ)
      → Gives itself a (held, b)
      → Same b c
      → Gives itself a (held, c)
  Gives-Same a b c none h k = Same-trans a b c h k
  Gives-Same a b c (some held) h k = record {
    owned = k.owned ∙ h.owned;
    new = h.new;
    later = omega (arith, h.later, k.later);
    sound = k.sound ∙ h.sound;
  }

  module _ (look : Text → Option ℕ → Owned S → Option ℕ × Owned S)
      (close : Option ℕ → Owned S → Option ℕ × Owned S) where
    pub use_all-Gives :
        ((url : Text) → Tidy (look url))
        → Tidy close
        → (us : List Use) → Tidy (use_all look close us)
    unfolding use_all use_map
    use_all-Gives tidy closing [] a b held h = h
    use_all-Gives tidy closing (look_up url ∷ us) a b held h =
        let after = look url held b in
        use_all-Gives tidy closing us a after.1 after.0 (tidy url a b held h)
    use_all-Gives tidy closing (close_it ∷ us) a b held h =
        let after = close held b in
        use_all-Gives tidy closing us a after.1 after.0 (closing a b held h)
