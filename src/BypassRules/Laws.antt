-- ===== src/BypassRules/Laws.antt =====
-- What a list of bypass rules matches.
use proxylib.Prelude.{
  map, map-append, ◌≡◌, keep-append, ◌∙◌, refl, ◌↔◌, Bool, true, false, not, ◌&&◌, ◌||◌, none, some,
  List, [], ◌∷◌, ◌++◌, arith, keep-append, ◌∙◌, any, any-append, Bool-cases, Option-cases, inl, inr,
  ◌⊎◌, ap,
}
use proxylib.Python.Exec.{ok, raise, value_error, ◌>>=◌}
use proxylib.Python.Text.{Text, text, lower, strip, is_empty, ends_with, ◌==◌, ==_iff, ==_refl}
use proxylib.Net.{Netimps}
use proxylib.BypassEntry.{Target, suffix, Dialect, applies, is_loopback, target, port_ok}
use proxylib.BypassRules.{
  BypassRules, union, joined, rules_of, Gathered, entries_of, whole_star, items, Source, parse,
  gather, add_entry, matches, dialect_of,
}

module _ ⦃net : Netimps⦄ where
  -- Two lists that treat loopback alike and are not reversed combine, and the combination matches
  -- what either of them matches.
  pub matches-union :
      (a b : BypassRules) (url : Text)
      → a.reversed ≡ false
      → b.reversed ≡ false
      → a.loopback ≡ b.loopback
      → (c : BypassRules) × (union a b ≡ ok c) × (matches c url ≡ (matches a url || matches b url))
  unfolding union matches
  matches-union a b url ra rb l = elim (Option-cases (target url)) [
    | inl e ↦ (joined a b, ground arith, ground (arith, e))
    | inr (t, e) ↦ (
      joined a b,
      ground arith,
      ground (arith, e, any-append (λ rule. applies rule t) a.rules b.rules),
    )
  ]

  -- A reversed list is never combined: `ValueError`.
  pub union_reversed :
      (a b : BypassRules) → (a.reversed || b.reversed) ≡ true → union a b ≡ raise value_error
  unfolding union
  union_reversed a b h = rw h refl

  -- A reversed list bypasses exactly the hosts that the same list the other way round does not,
  -- loopback aside.
  pub matches_reversed :
      (r : BypassRules) (url : Text) (t : Target)
      → target url ≡ some t
      → (r.loopback && is_loopback t) ≡ false
      → matches (record r { reversed = not r.reversed }) url ≡ not (matches r url)
  unfolding matches
  matches_reversed r url t e l = ground (arith, e, l)

  abbrev gathered_append : Gathered → Gathered → Gathered
  gathered_append g h = record {
    rules = g.rules ++ h.rules;
    texts = g.texts ++ h.texts;
    loopback = g.loopback && h.loopback;
    bad = g.bad ++ h.bad;
  }

  add_entry-append :
      (d : Dialect) (e : Text) (g h : Gathered)
      → add_entry d false e (gathered_append g h) ≡ gathered_append (add_entry d false e g) h
  unfolding add_entry
  add_entry-append d e g h = ground arith

  gather-append :
      (d : Dialect) (xs ys : List Text)
      → gather d false (xs ++ ys) ≡ gathered_append (gather d false xs) (gather d false ys)
  unfolding gather
  gather-append d [] ys = refl
  gather-append d (x ∷ xs) ys =
      ap (add_entry d false x) (gather-append d xs ys)
      ∙ add_entry-append d x (gather d false xs) (gather d false ys)

  entries_of-append :
      (d : Dialect) (xs ys : List Text)
      → entries_of d (items (xs ++ ys)) ≡ entries_of d (items xs) ++ entries_of d (items ys)
  unfolding entries_of
  entries_of-append d xs ys =
      rw map-append (keep-append (λ e. not (is_empty e)) (map strip xs) (map strip ys))

  parse_known :
      (dialect : Text) (d : Dialect) (source : Source)
      → dialect_of dialect ≡ some d
      → whole_star (entries_of d source) ≡ false
      → parse source dialect false ≡ ok (rules_of false (gather d false (entries_of d source)))
  unfolding parse
  parse_known dialect d source e star = rw (e, parse) (rw star refl)

  -- A list of entries read in two parts and combined is the list read as a whole, unless the whole
  -- list or a part of it is the single entry "*".
  pub parse-append :
      (dialect : Text) (xs ys : List Text) (d : Dialect)
      → dialect_of dialect ≡ some d
      → whole_star (entries_of d (items xs)) ≡ false
      → whole_star (entries_of d (items ys)) ≡ false
      → whole_star (entries_of d (items (xs ++ ys))) ≡ false
      → (do a ← parse (items xs) dialect false; b ← parse (items ys) dialect false; union a b)
        ≡ parse (items (xs ++ ys)) dialect false
  parse-append dialect xs ys d e sx sy sxy = rw (parse_known dialect d (items xs) e sx) (
      rw (parse_known dialect d (items ys) e sy) (
        rw (parse_known dialect d (items (xs ++ ys)) e sxy) (
          rw (entries_of-append d xs ys) (
            rw (gather-append d (entries_of d (items xs)) (entries_of d (items ys)))
              (unfold union in refl)))))

  -- Loopback stays bypassed unless some entry says `<-loopback>`.
  pub gather_loopback :
      (d : Dialect) (star : Bool) (es : List Text)
      → (gather d star es).loopback ≡ not (any (λ e. lower e == text "<-loopback>") es)
  unfolding gather add_entry
  gather_loopback d star [] = refl
  gather_loopback d star (e ∷ es) = ground (arith, gather_loopback d star es)

pub ends_with_sound : (s t : Text) → ends_with s t ≡ true → (p : Text) × (s ≡ p ++ t)
unfolding ends_with
ends_with_sound [] t h = ([], (==_iff [] t).0 h)
ends_with_sound (c ∷ s) t h = elim (Bool-cases ((c ∷ s) == t)) [
  | inl e ↦ ([], (==_iff (c ∷ s) t).0 e)
  | inr e ↦
      let (p, q) = ends_with_sound s t (ground (arith, e)) in (c ∷ p, ap (λ (u : Text). c ∷ u) q)
]

pub ends_with_complete : (p t : Text) → ends_with (p ++ t) t ≡ true
unfolding ends_with
ends_with_complete [] [] = ==_refl []
ends_with_complete [] (c ∷ t) = ground (arith, ==_refl (c ∷ t))
ends_with_complete (c ∷ p) t = ground (arith, ends_with_complete p t)

module _ ⦃net : Netimps⦄ where
  -- A suffix rule names the domain and its subdomains, and no other host: "notexample.com" is no
  -- subdomain of "example.com".
  pub suffix_iff :
      (domain : Text) (t : Target)
      → (applies (suffix domain none) t ≡ true)
        ↔ ((t.host ≡ domain) ⊎ ((p : Text) × (t.host ≡ p ++ (text "." ++ domain))))
  unfolding applies port_ok
  suffix_iff domain t = (
    λ h. elim (Bool-cases (t.host == domain)) [
      | inl e ↦ inl ((==_iff t.host domain).0 e)
      | inr e ↦ inr (ends_with_sound t.host (text "." ++ domain) (ground (arith, e)))
    ],
    λ c. elim c [
      | inl e ↦ ground (arith, (==_iff t.host domain).1 e)
      | inr (p, e) ↦ ground (arith, e, ends_with_complete p (text "." ++ domain))
    ],
  )
