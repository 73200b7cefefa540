-- ===== src/Proxy/Headers.antt =====
-- The headers of a proxy in its equality.
use mathlib.Core.List.{Perm, Permᴰ}
use mathlib.Core.Logic.{∥∥₁_elim}
use mathlib.Core.Bool.{Bool-set}
use proxylib.Prelude.{◌≡◌, refl, ◌∙◌, true, false, List, [], ◌∷◌, map, arith}
use proxylib.Python.Text.{Text, ==_iff}
use proxylib.Proxy.{Proxy}
use proxylib.Proxy.Key.{text_le, pair_le, insert, sort, canonical, key, same_proxy, same_proxy_iff}

text_le_total : (s t : Text) → text_le s t ≡ false → text_le t s ≡ true
unfolding text_le
text_le_total [] t h = cc
text_le_total (a ∷ s) [] h = refl
text_le_total (a ∷ s) (b ∷ t) h = ground (arith, text_le_total s t)

text_le_antisym : (s t : Text) → text_le s t ≡ true → text_le t s ≡ true → s ≡ t
unfolding text_le
text_le_antisym [] [] h k = refl
text_le_antisym [] (b ∷ t) h k = cc
text_le_antisym (a ∷ s) [] h k = cc
text_le_antisym (a ∷ s) (b ∷ t) h k = ground (arith, text_le_antisym s t)

text_le_trans : (s t u : Text) → text_le s t ≡ true → text_le t u ≡ true → text_le s u ≡ true
unfolding text_le
text_le_trans [] t u h k = refl
text_le_trans (a ∷ s) [] u h k = cc
text_le_trans (a ∷ s) (b ∷ t) [] h k = cc
text_le_trans (a ∷ s) (b ∷ t) (c ∷ u) h k = ground (arith, text_le_trans s t u)

pair_le_total : (x y : Text × Text) → pair_le x y ≡ false → pair_le y x ≡ true
unfolding pair_le
pair_le_total (a, b) (c, d) h =
    ground (arith, text_le_total a c, text_le_total b d, ==_iff a c, ==_iff c a)

pair_le_antisym : (x y : Text × Text) → pair_le x y ≡ true → pair_le y x ≡ true → x ≡ y
unfolding pair_le
pair_le_antisym (a, b) (c, d) h k =
    ground (arith, text_le_antisym a c, text_le_antisym b d, ==_iff a c, ==_iff c a)

pair_le_trans : (x y z : Text × Text) → pair_le x y ≡ true → pair_le y z ≡ true → pair_le x z ≡ true
unfolding pair_le
pair_le_trans (a, b) (c, d) (e, f) h k = ground (
  arith,
  text_le_trans a c e,
  text_le_trans b d f,
  text_le_antisym a c,
  ==_iff a c,
  ==_iff c e,
  ==_iff a e,
)

insert_comm :
    (x y : Text × Text) (l : List (Text × Text)) → insert x (insert y l) ≡ insert y (insert x l)
unfolding insert
insert_comm x y [] = ground (arith, pair_le_total x y, pair_le_antisym x y)
insert_comm x y (z ∷ l) = ground (
  arith,
  pair_le_total x y,
  pair_le_total y x,
  pair_le_antisym x y,
  pair_le_trans x y z,
  pair_le_trans y x z,
  insert_comm x y l,
)

sort_of_Permᴰ : {xs ys : List (Text × Text)} → Permᴰ xs ys → sort xs ≡ sort ys
unfolding sort
sort_of_Permᴰ Permᴰ.nil = refl
sort_of_Permᴰ (Permᴰ.cons {l₁} {l₂} e d) = rw (e, sort_of_Permᴰ d) refl
sort_of_Permᴰ (Permᴰ.swap {a} {b} {l} e f) = rw (e, f) (insert_comm _ _ (sort l))
sort_of_Permᴰ (Permᴰ.trans d e) = sort_of_Permᴰ d ∙ sort_of_Permᴰ e

-- A proxy equals itself with other headers if those are the same ones in another order, up to the
-- case of their names.
pub same_proxy_of_perm :
    (p : Proxy) (headers : List (Text × Text))
    → Perm (map canonical p.headers) (map canonical headers)
    → same_proxy p (record p { headers = headers }) ≡ true
same_proxy_of_perm p headers perm = ∥∥₁_elim perm (Bool-set _ _) λ d.
    (same_proxy_iff p (record p { headers = headers })).1 (unfold key in rw (sort_of_Permᴰ d) refl)
