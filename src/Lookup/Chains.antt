-- ===== src/Lookup/Chains.antt =====
-- `lookup` of the library's own maps, and chains of chains.
use proxylib.Prelude.{
  ◌≡◌, refl, ap, fun_ext, ◌∙◌, ◌≢◌, false, none, some, List, [], ◌∷◌, ◌++◌, map, arith, Bool-cases,
  inl, inr,
}
use proxylib.Python.Exec.{Error, Result, ok, raise, key_error, is_a, Exec, bind, lift, continue}
use proxylib.Python.Text.{Text}
use proxylib.Net.{Netimps}
use proxylib.Lookup.{
  Answer, many, Proxies, normalise_one, normalise_all, normalise, ProxyMap, lookup, answer_for,
  ask_again, or_next, chain_lookup, item_of, own_map, chain_map,
}
use proxylib.Lookup.Laws.{key_error_only, normalise-ne-nil}

not_key_error : (e : Error) → is_a e key_error ≡ false → e ≢ key_error
unfolding is_a
not_key_error e h = λ k. ground arith

-- a function that never gives the empty list
abbrev pub NeverEmpty : {S : Type 0} → (Text → Exec S Proxies) → Type 0
NeverEmpty {S} f = (url : Text) (s : S) (ps : Proxies) → (f url s).0 ≡ ok ps → ps ≢ []

module _ ⦃net : Netimps⦄ where
  normalise_all-own : (ps : Proxies) → normalise_all (map item_of ps) ≡ ok ps
  unfolding normalise_all normalise_one
  normalise_all-own [] = refl
  normalise_all-own (none ∷ ps) = rw (normalise_all-own ps)
  normalise_all-own (some p ∷ ps) = rw (normalise_all-own ps)

  -- Reading back a tuple of proxies gives the same tuple.
  pub normalise-own : (ps : Proxies) → ps ≢ [] → normalise (many (map item_of ps)) ≡ ok ps
  unfolding normalise
  normalise-own [] h = absurd (h refl)
  normalise-own (p ∷ ps) h = rw (normalise_all-own (p ∷ ps))

  module _ {S : Type 0} where
    bind_normalise-ne-nil :
        (r : Result Answer) (s : S) (ps : Proxies)
        → (continue r (λ a. lift (normalise a)) s).0 ≡ ok ps
        → ps ≢ []
    bind_normalise-ne-nil (ok a) s ps e = normalise-ne-nil a ps e
    bind_normalise-ne-nil (raise x) s ps e = λ z. cc

    -- `lookup` never answers the empty list, whatever the map returns.
    pub lookup-ne-nil : (m : ProxyMap S) → NeverEmpty (lookup m)
    unfolding lookup
    lookup-ne-nil m url s ps e = bind_normalise-ne-nil _ _ ps e

    own_step :
        (r : Result Proxies) (s : S) (url : Text) (m : ProxyMap S)
        → m.is_mapping ≡ false
        → ((ps : Proxies) → r ≡ ok ps → ps ≢ [])
        → (let q : Result Answer × S = continue r (λ ps. lift (ok (many (map item_of ps)))) s in
            bind (answer_for m url q.0) (λ a. lift (normalise a)) q.1)
          ≡ (r, s)
    unfolding answer_for ask_again
    own_step (ok ps) s url m h ne = rw (normalise-own ps (ne ps refl))
    own_step (raise e) s url m h ne = elim (Bool-cases (is_a e key_error)) [
      | inl k ↦ rw (k, h) (rw (key_error_only e k) refl)
      | inr k ↦ rw k refl
    ]

    -- `lookup` of one of the library's own maps is that map's own answer, its `KeyError` and every
    -- other error included.
    pub lookup-own_map :
        (f : Text → Exec S Proxies) (url : Text) (s : S)
        → ((ps : Proxies) → (f url s).0 ≡ ok ps → ps ≢ [])
        → lookup (own_map f) url s ≡ f url s
    unfolding lookup own_map
    lookup-own_map f url s ne = own_step (f url s).0 (f url s).1 url (own_map f) refl ne

    or_next-ne-nil :
        (r : Result Proxies) (next : Exec S Proxies) (s : S) (ps : Proxies)
        → (r ≡ ok ps → ps ≢ [])
        → ((s' : S) → (next s').0 ≡ ok ps → ps ≢ [])
        → (or_next r next s).0 ≡ ok ps
        → ps ≢ []
    unfolding or_next
    or_next-ne-nil (ok qs) next s ps h k e = h e
    or_next-ne-nil (raise x) next s ps h k e = elim (Bool-cases (is_a x key_error)) [
      | inl c ↦ k s (ground (arith, c))
      | inr c ↦ λ z. ground (arith, c)
    ]

    chain_lookup-ne-nil : (ms : List (ProxyMap S)) → NeverEmpty (chain_lookup ms)
    unfolding chain_lookup
    chain_lookup-ne-nil [] url s ps e = λ z. cc
    chain_lookup-ne-nil (m ∷ ms) url s ps e =
        or_next-ne-nil (lookup m url s).0 (chain_lookup ms url) (lookup m url s).1 ps
          (λ h. lookup-ne-nil m url s ps h) (λ s' h. chain_lookup-ne-nil ms url s' ps h) e

    or_next_assoc :
        (r : Result Proxies) (f g : Exec S Proxies) (s : S)
        → or_next r (λ s'. or_next (f s').0 g (f s').1) s
          ≡ or_next (or_next r f s).0 g (or_next r f s).1
    unfolding or_next
    or_next_assoc (ok ps) f g s = refl
    or_next_assoc (raise e) f g s = elim (Bool-cases (is_a e key_error)) [
      | inl c ↦ rw c refl
      | inr c ↦ rw c (rw c refl)
    ]

    -- what asking the maps in turn comes to, from a state, and the state after
    pub data Asked (url : Text) : List (ProxyMap S) → S → Result Proxies × S → Type 0 where
      nobody : (s : S) → Asked url [] s (raise key_error, s)
      answered :
          (m : ProxyMap S) (ms : List (ProxyMap S)) (s s' : S) (ps : Proxies)
          → lookup m url s ≡ (ok ps, s')
          → Asked url (m ∷ ms) s (ok ps, s')
      passed :
          (m : ProxyMap S) (ms : List (ProxyMap S)) (s s' : S) (r : Result Proxies × S)
          → lookup m url s ≡ (raise key_error, s')
          → Asked url ms s' r
          → Asked url (m ∷ ms) s r
      broken :
          (m : ProxyMap S) (ms : List (ProxyMap S)) (s s' : S) (e : Error)
          → lookup m url s ≡ (raise e, s')
          → e ≢ key_error
          → Asked url (m ∷ ms) s (raise e, s')

    chain_step :
        (m : ProxyMap S) (ms : List (ProxyMap S)) (url : Text) (s s' : S) (r : Result Proxies)
        → lookup m url s ≡ (r, s')
        → ((s' : S) → Asked url ms s' (chain_lookup ms url s'))
        → Asked url (m ∷ ms) s (or_next r (chain_lookup ms url) s')
    unfolding or_next
    chain_step m ms url s s' (ok ps) e later = answered m ms s s' ps e
    chain_step m ms url s s' (raise x) e later = elim (Bool-cases (is_a x key_error)) [
      | inl k ↦
          rw k (passed m ms s s' _ (e ∙ ap (λ y. (raise y, s')) (key_error_only x k)) (later s'))
      | inr k ↦ rw k (broken m ms s s' x e (not_key_error x k))
    ]

    -- A chain asks its maps in order, each from the state that the one before left: the first answer is
    -- its answer; a map that raises `KeyError` is passed over; any other exception, at whatever map, ends
    -- the lookup with that exception; and where every map was passed over, the chain raises `KeyError`.
    pub chain_lookup-Asked :
        (ms : List (ProxyMap S)) (url : Text) (s : S) → Asked url ms s (chain_lookup ms url s)
    unfolding chain_lookup
    chain_lookup-Asked [] url s = nobody s
    chain_lookup-Asked (m ∷ ms) url s =
        chain_step m ms url s (lookup m url s).1 (lookup m url s).0 refl (chain_lookup-Asked ms url)

    -- A chain of two lists of maps asks the first list, and the second only after a `KeyError`, from
    -- the state that the first left.
    pub chain_lookup-append :
        (xs ys : List (ProxyMap S)) (url : Text) (s : S)
        → chain_lookup (xs ++ ys) url s
          ≡ or_next (chain_lookup xs url s).0 (chain_lookup ys url) (chain_lookup xs url s).1
    unfolding chain_lookup
    chain_lookup-append [] ys url s = unfold or_next is_a in refl
    chain_lookup-append (x ∷ xs) ys url s =
        ap (λ (k : Exec S Proxies). or_next (lookup x url s).0 k (lookup x url s).1)
          (fun_ext (chain_lookup-append xs ys url))
        ∙ or_next_assoc (lookup x url s).0 (chain_lookup xs url) (chain_lookup ys url)
            (lookup x url s).1

    pub lookup-chain_map :
        (ms : List (ProxyMap S)) (url : Text) (s : S)
        → lookup (chain_map ms) url s ≡ chain_lookup ms url s
    unfolding chain_map
    lookup-chain_map ms url s =
        lookup-own_map (chain_lookup ms) url s (chain_lookup-ne-nil ms url s)

    -- A chain that is a link of a chain answers as its links would in its place.
    pub chain_lookup-chain_map :
        (xs ys : List (ProxyMap S)) (url : Text) (s : S)
        → chain_lookup (chain_map xs ∷ ys) url s ≡ chain_lookup (xs ++ ys) url s
    chain_lookup-chain_map xs ys url s =
        rw chain_lookup-append (unfold chain_lookup in rw (lookup-chain_map xs url s) refl)
