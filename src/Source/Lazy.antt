-- ===== src/Source/Lazy.antt =====
-- Maps that are made on the first lookup: `_LazyPacMap` of src/proxylib/proxy.py, whose `close` lets go of
-- the map, and `_AutoProxy` of src/proxylib/patching.py. Making the map, `lookup` on it and closing it are
-- arguments.
use proxylib.Prelude.{◌≡◌, refl, ap, Option, none, some, List, [], ◌∷◌}
use proxylib.Python.Exec.{Result, ok, raise, Exec}
use proxylib.Python.Text.{Text}
use proxylib.Lookup.{Proxies}

-- `_pac`, or `_map`, and the rest of the program's state
pub record Lazy (M S : Type 0) : Type 0 where
  pub made : Option M
  pub rest : S

module _ {M S : Type 0} (make : Exec S M) (ask : M → Text → Exec S Proxies)
    (close_map : M → S → S) where
  asked : M → Text → Exec (Lazy M S) Proxies
  asked m url l = let (r, s) = ask m url l.rest in (r, record { made = some m; rest = s })

  -- `__getitem__`
  unfoldable pub getitem : Text → Exec (Lazy M S) Proxies
  unfolding asked
  getitem url l = elim l.made [
    | some m ↦ asked m url l
    | none ↦
        let (r, s) = make l.rest in
        elim r [
          | raise e ↦ (raise e, record l { rest = s })
          | ok m ↦ asked m url (record { made = some m; rest = s })
        ]
  ]

  -- `_LazyPacMap.close`
  unfoldable pub close : Lazy M S → Lazy M S
  close l = elim l.made [
    | none ↦ record l { made = none }
    | some m ↦ record { made = none; rest = close_map m l.rest }
  ]

  -- lookups, one after another
  unfoldable pub getitems : List Text → Lazy M S → List (Result Proxies) × Lazy M S
  getitems [] l = ([], l)
  getitems (url ∷ urls) l =
      let (r, l') = getitem url l in let (rs, l'') = getitems urls l' in (r ∷ rs, l'')

  -- the same lookups on a map that is there
  unfoldable pub asks : M → List Text → S → List (Result Proxies) × S
  asks m [] s = ([], s)
  asks m (url ∷ urls) s =
      let (r, s') = ask m url s in let (rs, s'') = asks m urls s' in (r ∷ rs, s'')

  getitems_made :
      (m : M) (urls : List Text) (s : S)
      → getitems urls (record { made = some m; rest = s })
        ≡ ((asks m urls s).0, record { made = some m; rest = (asks m urls s).1 })
  unfolding getitems asks getitem
  getitems_made m [] s = refl
  getitems_made m (url ∷ urls) s = rw (getitems_made m urls (ask m url s).1) refl

  -- A map that is made on its first lookup answers as the map that was made, which is made once: where
  -- making it succeeds, any lookups give what they give on a map that was there from the start, and
  -- closing it then leaves what closing that map leaves.
  pub getitems-asks :
      (m : M) (s s' : S) (url : Text) (urls : List Text)
      → make s ≡ (ok m, s')
      → (getitems (url ∷ urls) (record { made = none; rest = s }) ≡ (
        (asks m (url ∷ urls) s').0,
        record { made = some m; rest = (asks m (url ∷ urls) s').1 },
      ))
        × (close (getitems (url ∷ urls) (record { made = none; rest = s })).1
            ≡ record { made = none; rest = close_map m (asks m (url ∷ urls) s').1 })
  unfolding getitems asks getitem close
  getitems-asks m s s' url urls h =
      let first : getitem url (record { made = none; rest = s })
          ≡ ((ask m url s').0, record { made = some m; rest = (ask m url s').1 }) =
        rw (getitem, ap (λ q. q.0) h, ap (λ q. q.1) h) refl in
      rw (first, getitems_made m urls (ask m url s').1) (refl, refl)
