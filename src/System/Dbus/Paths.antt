-- ===== src/System/Dbus/Paths.antt =====
-- src/proxylib/system/_posix/_networkmanager.py: the object paths that are read of a reply.
use proxylib.Prelude.{
  ℕ, ◌-◌, ◌≡◌, refl, sym, ap, ◌∙◌, append-nil, append_assoc, map, ◌≤◌, none, true, false, Option,
  some, List, [], ◌∷◌, ◌++◌, arith, length, length-append, drop_of_length, All,
}
use proxylib.Python.Text.{Text, text, has_char, is_empty, starts_with}
use proxylib.System.Dbus.{literal, until_quote, until_quote_some, path_at, find_all, object_paths}

-- a path that `dbus-send` can print: not empty, and without a quote
abbrev pub IsPath : Text → Type 0
IsPath p = (is_empty p ≡ false) × (has_char b'"' p ≡ false)

-- what `dbus-send` prints besides: the reply's header, types, brackets and white space
abbrev pub IsPlain : Text → Type 0
IsPlain s = has_char b'"' s ≡ false

-- a reply with these paths, each after a plain text, and one at the end
abbrev pub reply_of : List (Text × Text) → Text → Text
reply_of [] end = end
reply_of ((before, p) ∷ ps) end = before ++ (text "object path \"" ++ (p ++ b'"' ∷ reply_of ps end))

until_quote-append :
    (p rest : Text) → has_char b'"' p ≡ false → until_quote (p ++ b'"' ∷ rest) ≡ some (p, rest)
unfolding until_quote
until_quote-append [] rest h = refl
until_quote-append (c ∷ p) rest h =
    rw (until_quote-append p rest (ground (arith, h))) (ground (arith, h))

find_all-skip :
    {A : Type 0} (at : Text → Option (A × Text)) (xs s : Text)
    → find_all at (length xs) (xs ++ s) ≡ find_all at 0 s
unfolding find_all
find_all-skip at [] s = refl
find_all-skip at (x ∷ xs) s = find_all-skip at xs s

starts_with-append : (word s : Text) → starts_with (word ++ s) word ≡ true
unfolding starts_with
starts_with-append [] s = refl
starts_with-append (c ∷ word) s = ground (arith, starts_with-append word s)

literal-append : (word s : Text) → literal word (word ++ s) ≡ some s
unfolding literal
literal-append word s = rw (literal, starts_with-append word s, drop_of_length word s) refl

path_at-append :
    (p rest : Text)
    → IsPath p
    → path_at (text "object path \"" ++ (p ++ b'"' ∷ rest)) ≡ some (p, rest)
unfolding path_at until_quote_some
path_at-append p rest (some_char, plain) =
    rw
      (
        path_at,
        literal-append (text "object path \"") (p ++ b'"' ∷ rest),
        until_quote_some,
        until_quote-append p rest plain,
        some_char,
      )
      refl

find_all-match :
    {A : Type 0} (at : Text → Option (A × Text)) (c : ℕ) (xs rest : Text) (captured : A)
    → at (c ∷ xs ++ rest) ≡ some (captured, rest)
    → find_all at 0 (c ∷ xs ++ rest) ≡ captured ∷ find_all at 0 rest
unfolding find_all
find_all-match at c xs rest captured h =
    let skipped : length (xs ++ rest) - length rest ≡ length xs =
      omega (arith, length-append {0} xs rest) in
    rw (find_all, h, skipped) (ap (λ more. captured ∷ more) (find_all-skip at xs rest))

quoted : (p rest : Text) → (p ++ b'"' ∷ []) ++ rest ≡ p ++ b'"' ∷ rest
quoted [] rest = refl
quoted (c ∷ p) rest = ap (λ s. c ∷ s) (quoted p rest)

-- a word with a quote does not start where no quote comes before its length, or before the end
no_start_within :
    (x rest word : Text)
    → IsPlain x
    → has_char b'"' word ≡ true
    → length word ≤ length x
    → starts_with (x ++ rest) word ≡ false
unfolding starts_with
no_start_within x rest [] plain has le = absurd (ground arith)
no_start_within [] rest (d ∷ word) plain has le = absurd (omega (arith, le))
no_start_within (c ∷ x) rest (d ∷ word) plain has le =
    ground (arith, no_start_within x rest word, plain, has, le)

no_start_plain :
    (x word : Text) → IsPlain x → has_char b'"' word ≡ true → starts_with x word ≡ false
unfolding starts_with
no_start_plain x [] plain has = absurd (ground arith)
no_start_plain [] (d ∷ word) plain has = refl
no_start_plain (c ∷ x) (d ∷ word) plain has = ground (arith, no_start_plain x word, plain, has)

path_at_unless : (s : Text) → starts_with s (text "object path \"") ≡ false → path_at s ≡ none
unfolding path_at literal
path_at_unless s h = rw (path_at, literal, h) refl

-- no path starts within a plain text before `rest`
abbrev StartsAfter : Text → Type 0
StartsAfter rest = (c : ℕ) (x : Text) → IsPlain (c ∷ x) → path_at (c ∷ x ++ rest) ≡ none

IsPlain-append : (x y : Text) → IsPlain x → IsPlain y → IsPlain (x ++ y)
IsPlain-append [] y h k = k
IsPlain-append (c ∷ x) y h k = ground (arith, h, IsPlain-append x y (ground (arith, h)) k)

before_end : StartsAfter []
before_end c x plain =
    rw (append-nil x) (path_at_unless (c ∷ x) (no_start_plain (c ∷ x) _ plain refl))

before_path : (rest : Text) → StartsAfter (text "object path \"" ++ rest)
before_path rest c x plain = rw⁻¹ (append_assoc x (text "object path ") (b'"' ∷ rest)) (
    path_at_unless _ (
      no_start_within (c ∷ x ++ text "object path ") (b'"' ∷ rest) (text "object path \"")
        (IsPlain-append (c ∷ x) (text "object path ") plain refl) refl
        (omega (arith, length-append {0} x (text "object path ")))))

find_all-plain :
    (x rest : Text)
    → IsPlain x
    → StartsAfter rest
    → find_all path_at 0 (x ++ rest) ≡ find_all path_at 0 rest
unfolding find_all
find_all-plain [] rest plain after = refl
find_all-plain (c ∷ x) rest plain after =
    rw (find_all, after c x plain) (find_all-plain x rest (ground (arith, plain)) after)

object_paths-path :
    (p rest : Text)
    → IsPath p
    → object_paths (text "object path \"" ++ (p ++ b'"' ∷ rest)) ≡ p ∷ object_paths rest
unfolding object_paths
object_paths-path p rest h =
    ap (λ s. object_paths (text "object path \"" ++ s)) (sym (quoted p rest))
    ∙ find_all-match path_at b'o' (text "bject path \"" ++ (p ++ b'"' ∷ [])) rest p
        (ap (λ s. path_at (text "object path \"" ++ s)) (quoted p rest) ∙ path_at-append p rest h)

-- Of a reply with any paths, and between them any texts without a quote (as the header, the types, the
-- brackets and the indentation that `dbus-send` prints), the paths are read in their order, none left out
-- and none added.
pub object_paths-reply_of :
    (ps : List (Text × Text)) (end : Text)
    → All (λ p. IsPlain p.0 × IsPath p.1) ps
    → IsPlain end
    → object_paths (reply_of ps end) ≡ map (λ p. p.1) ps
unfolding object_paths find_all
object_paths-reply_of [] end h plain =
    ap (find_all path_at 0) (sym (append-nil end)) ∙ find_all-plain end [] plain before_end
object_paths-reply_of ((before, p) ∷ ps) end ((quiet, h), hs) plain =
    find_all-plain before _ quiet (before_path _)
    ∙ object_paths-path p (reply_of ps end) h
    ∙ ap (λ qs. p ∷ qs) (object_paths-reply_of ps end hs plain)
