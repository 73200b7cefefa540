-- ===== src/System/LibProxy/Releasing.antt =====
-- src/proxylib/system/_posix/_libproxy.py: a `LibProxyMap` leaves no array and no factory over.
use proxylib.Prelude.{
  ℕ, ◌≡◌, refl, ap, Bool, true, false, Option, none, some, List, [], ◌∷◌, Bool-cases, inl, inr,
}
use proxylib.Python.Text.{Text}
use proxylib.System.Owned.{Owned, acquire, Use, look_up, close_it, use_map, use_all}
use proxylib.System.Owned.Balance.{
  Same, Same-refl, Same-trans, Same-rest, release-Same, acquire-OneMore, Gives, itself, Tidy,
  Gives-Same, use_all-Gives,
}
use proxylib.System.LibProxy.{
  LibProxy, make_factory, read_array, ask_factory, getitem, close, look, lifetime,
}

module _ {S : Type 0} (lib : LibProxy S) where
  read_array-Same : (found : Option (List Text)) (w : Owned S) → Same w (read_array lib found w).1
  unfolding read_array
  read_array-Same none w = Same-refl w
  read_array-Same (some entries) w =
      let w' = (acquire w).1 in
      release-Same w w' w' (acquire w).0 (acquire-OneMore w w (Same-refl w)) (Same-refl w')

  make_factory-Tidy : Tidy (make_factory lib)
  unfolding make_factory
  make_factory-Tidy a b (some factory) h = h
  make_factory-Tidy a b none h =
      let s = (lib.factory_new b.rest).1 in
      let same = Same-trans a b (record b { rest = s }) h (Same-rest b s) in
      elim (Bool-cases (lib.factory_new b.rest).0) [
        | inl made ↦ rw made (acquire-OneMore a (record b { rest = s }) same)
        | inr failed ↦ rw failed same
      ]

  ask_factory-Same :
      (factory : Option ℕ) (uri : Text) (w : Owned S) → Same w (ask_factory lib factory uri w).1
  unfolding ask_factory
  ask_factory-Same none uri w = Same-refl w
  ask_factory-Same (some factory) uri w =
      let (found, s) = lib.get_proxies factory uri w.rest in
      Same-trans w (record w { rest = s }) _ (Same-rest w s)
        (read_array-Same found (record w { rest = s }))

  look-Tidy : (uri : Text) → Tidy (look lib true uri)
  unfolding look getitem
  look-Tidy uri a b factory h =
      let (factory', w') = make_factory lib factory b in
      Gives-Same a w' _ factory' (make_factory-Tidy a b factory h)
        (ask_factory-Same factory' uri w')

  close-Same :
      (a b : Owned S) (factory : Option ℕ)
      → Gives itself a (factory, b)
      → Same a (close lib true factory b).1
  unfolding close
  close-Same a b none h = h
  close-Same a b (some factory) h = release-Same a b _ factory h (Same-rest b _)

  close-Tidy : Tidy (close lib true)
  unfolding close
  close-Tidy a b none h = close-Same a b none h
  close-Tidy a b (some factory) h = close-Same a b (some factory) h

  -- where libproxy is not installed no factory is made
  unloaded :
      (uses : List Use) (w : Owned S)
      → use_all (look lib false) (close lib false) uses none w ≡ (none, w)
  unfolding use_all use_map look getitem close
  unloaded [] w = refl
  unloaded (look_up uri ∷ uses) w = unloaded uses w
  unloaded (close_it ∷ uses) w = unloaded uses w

  -- Whatever a program does with a `LibProxyMap`, in whatever order it looks URLs up and closes it, and
  -- whether or not libproxy is installed, makes a factory or answers: when the map is gone, its factories
  -- and every array were freed exactly once, and nothing else was.
  pub lifetime-frees :
      (is_loaded : Bool) (uses : List Use) (w : Owned S)
      → ((lifetime lib is_loaded uses w).live ≡ w.live)
        × ((lifetime lib is_loaded uses w).faults ≡ w.faults)
  unfolding lifetime close
  lifetime-frees false uses w =
      let same = ap (λ l. (close lib false l.0 l.1).1) (unloaded uses w) in
      (ap (λ x. x.live) same, ap (λ x. x.faults) same)
  lifetime-frees true uses w =
      let (factory, w') = use_all (look lib true) (close lib true) uses none w in
      let kept = close-Same w w' factory (
        use_all-Gives (look lib true) (close lib true) look-Tidy close-Tidy uses w w none
          (Same-refl w)) in
      (kept.owned, kept.sound)
