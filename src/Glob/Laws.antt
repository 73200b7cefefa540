-- ===== src/Glob/Laws.antt =====
-- The glob matchers of src/proxylib/bypass.py and pac/_functions.py, and the texts a pattern names.
use proxylib.Prelude.{
  ℕ, ◌≡◌, ◌≢◌, refl, sym, subst, ◌↔◌, true, false, [], ◌∷◌, arith, eqb, Bool-cases, inl, inr,
}
use proxylib.Python.Text.{Text, lower_char}
use proxylib.Glob.{star, any_char, lit, token, compile, fullmatch, glob_match, sh_exp_match}

-- `Names fold pattern s`: the text `s` is one of those that the pattern names. "*" stands for any
-- characters, none included, "?" for any one, and another character for all that `fold` takes to the
-- same one as it.
pub data Names (fold : ℕ → ℕ) : Text → Text → Type 0 where
  done : Names fold [] []
  skip : {p : Text} {s : Text} → Names fold p s → Names fold (b'*' ∷ p) s
  more : {p : Text} {c : ℕ} {s : Text} → Names fold (b'*' ∷ p) s → Names fold (b'*' ∷ p) (c ∷ s)
  any : {p : Text} {c : ℕ} {s : Text} → Names fold p s → Names fold (b'?' ∷ p) (c ∷ s)
  char :
      {p : Text} {d c : ℕ} {s : Text}
      → d ≢ b'*'
      → d ≢ b'?'
      → fold d ≡ fold c
      → Names fold p s
      → Names fold (d ∷ p) (c ∷ s)

eqb-eq : (d e : ℕ) → eqb d e ≡ true → d ≡ e
eqb-eq d e h = ground (arith, h)

eqb-ne : (d e : ℕ) → eqb d e ≡ false → d ≢ e
eqb-ne d e h = λ k. ground (arith, h, k)

token_plain : (d : ℕ) → d ≢ b'*' → d ≢ b'?' → token d ≡ lit d
token_plain d n m = elim (Bool-cases (eqb d b'*')) [
  | inl e ↦ absurd (n (eqb-eq d b'*' e))
  | inr e ↦ elim (Bool-cases (eqb d b'?')) [
    | inl f ↦ absurd (m (eqb-eq d b'?' f))
    | inr f ↦ rw (e, f) refl
  ]
]

module _ (fold : ℕ → ℕ) where
  star-sound :
      (p s : Text)
      → ((t : Text) → fullmatch fold (compile p) t ≡ true → Names fold p t)
      → fullmatch fold (star ∷ compile p) s ≡ true
      → Names fold (b'*' ∷ p) s
  unfolding fullmatch
  star-sound p [] later h = skip (later [] h)
  star-sound p (c ∷ s) later h = elim (Bool-cases (fullmatch fold (compile p) (c ∷ s))) [
    | inl e ↦ skip (later (c ∷ s) e)
    | inr e ↦ more (star-sound p s later (ground arith))
  ]

  any-sound :
      (p s : Text)
      → ((t : Text) → fullmatch fold (compile p) t ≡ true → Names fold p t)
      → fullmatch fold (any_char ∷ compile p) s ≡ true
      → Names fold (b'?' ∷ p) s
  unfolding fullmatch
  any-sound p [] later h = cc
  any-sound p (c ∷ s) later h = any (later s h)

  char-sound :
      (d : ℕ) (p s : Text)
      → d ≢ b'*'
      → d ≢ b'?'
      → ((t : Text) → fullmatch fold (compile p) t ≡ true → Names fold p t)
      → fullmatch fold (lit d ∷ compile p) s ≡ true
      → Names fold (d ∷ p) s
  unfolding fullmatch
  char-sound d p [] no_star no_mark later h = cc
  char-sound d p (c ∷ s) no_star no_mark later h =
      char no_star no_mark (ground arith) (later s (ground arith))

  fullmatch-sound : (p s : Text) → fullmatch fold (compile p) s ≡ true → Names fold p s
  unfolding fullmatch compile
  fullmatch-sound [] [] h = done
  fullmatch-sound [] (c ∷ s) h = cc
  fullmatch-sound (d ∷ p) s h = elim (Bool-cases (eqb d b'*')) [
    | inl e ↦
        subst (λ x. Names fold (x ∷ p) s) (sym (eqb-eq d b'*' e))
          (star-sound p s (fullmatch-sound p) (rw e at h))
    | inr n ↦ elim (Bool-cases (eqb d b'?')) [
      | inl e ↦
          subst (λ x. Names fold (x ∷ p) s) (sym (eqb-eq d b'?' e))
            (any-sound p s (fullmatch-sound p) (rw (n, e) at h))
      | inr m ↦
          char-sound d p s (eqb-ne d b'*' n) (eqb-ne d b'?' m) (fullmatch-sound p) (rw (n, m) at h)
    ]
  ]

  fullmatch_complete : {p s : Text} → Names fold p s → fullmatch fold (compile p) s ≡ true
  unfolding fullmatch compile
  fullmatch_complete done = refl
  fullmatch_complete (skip {p} {s = []} m) = fullmatch_complete m
  fullmatch_complete (skip {p} {s = c ∷ s} m) = ground (arith, fullmatch_complete m)
  fullmatch_complete (more m) = ground (arith, fullmatch_complete m)
  fullmatch_complete (any m) = fullmatch_complete m
  fullmatch_complete (char {d} n k e m) =
      rw (token_plain d n k) (ground (arith, e, fullmatch_complete m))

-- A bypass glob matches a host exactly when the host is one that the pattern names: "*" stands for any
-- characters, "?" for any one, and each other character for itself in either case.
pub glob_match_iff :
    (pattern host : Text) → (glob_match pattern host ≡ true) ↔ Names lower_char pattern host
unfolding glob_match
glob_match_iff pattern host =
    (fullmatch-sound lower_char pattern host, fullmatch_complete lower_char)

-- `shExpMatch` is true exactly of the texts that the shell expression names, in their own case.
pub sh_exp_match_iff :
    (test shexp : Text) → (sh_exp_match test shexp ≡ true) ↔ Names (λ c. c) shexp test
unfolding sh_exp_match
sh_exp_match_iff test shexp = (fullmatch-sound (λ c. c) shexp test, fullmatch_complete (λ c. c))
