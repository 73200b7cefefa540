-- ===== src/Python/Exec.antt =====
-- Exceptions, by class (exceptions.py and the built-in ones that the program raises or catches),
-- and code that may raise, with and without a state that it changes.
use proxylib.Prelude.{
  ℕ, zero, suc, ◌≡◌, refl, ◌⊎◌, inl, inr, Bool, true, false, ◌||◌, List, [], ◌∷◌, any,
}

pub data Error : Type 0 where
  exception key_error lookup_error value_error type_error os_error import_error : Error
  runtime_error attribute_error : Error
  proxylib_error proxy_parse_error pac_error no_reachable_proxy_error : Error
  missing_extra_error unsupported_proxy_error : Error

-- the classes that a class names as its bases
unfoldable pub bases : Error → List Error
bases exception = []
bases key_error = lookup_error ∷ []
bases proxylib_error = exception ∷ []
bases proxy_parse_error = proxylib_error ∷ value_error ∷ []
bases pac_error = proxylib_error ∷ []
bases no_reachable_proxy_error = proxylib_error ∷ lookup_error ∷ []
bases missing_extra_error = proxylib_error ∷ import_error ∷ []
bases unsupported_proxy_error = proxylib_error ∷ []
bases _ = exception ∷ []

abbrev pub same_class : Error → Error → Bool
same_class exception exception = true
same_class key_error key_error = true
same_class lookup_error lookup_error = true
same_class value_error value_error = true
same_class type_error type_error = true
same_class os_error os_error = true
same_class import_error import_error = true
same_class runtime_error runtime_error = true
same_class attribute_error attribute_error = true
same_class proxylib_error proxylib_error = true
same_class proxy_parse_error proxy_parse_error = true
same_class pac_error pac_error = true
same_class no_reachable_proxy_error no_reachable_proxy_error = true
same_class missing_extra_error missing_extra_error = true
same_class unsupported_proxy_error unsupported_proxy_error = true
same_class _ _ = false

-- `isinstance`, up the bases; no class here has more than three above it
is_a_within : ℕ → Error → Error → Bool
is_a_within zero e c = same_class e c
is_a_within (suc n) e c = same_class e c || any (λ b. is_a_within n b c) (bases e)

unfoldable pub is_a : Error → Error → Bool
unfolding is_a_within bases
is_a e c = is_a_within 3 e c

pub data Result {ℓ} (A : Type ℓ) : Type ℓ where
  ok : A → Result A
  raise : Error → Result A

-- the next statement, where the first one did not raise
infixl 5 ◌>>=◌
abbrev pub ◌>>=◌ {ℓ} : {A B : Type ℓ} (first : Result A) (next : A → Result B) → Result B
raise error >>= next = raise error
ok value >>= next = next value

-- `if bad: raise e`
abbrev pub refuse_if : Bool → Error → Result (Unit {0})
refuse_if true e = raise e
refuse_if false e = ok tt

-- a statement that gives no value, and the next
infixl 5 ◌>>◌
abbrev pub ◌>>◌ {ℓ} : {B : Type ℓ} (first : Result (Unit {0})) (next : Result B) → Result B
raise error >> next = raise error
ok _ >> next = next

-- A call that may change the state, and leaves what it changed where it raises.
abbrev pub Exec {ℓ} : Type ℓ → Type ℓ → Type ℓ
Exec S A = S → Result A × S

abbrev pub continue {ℓ} : {S A B : Type ℓ} → Result A → (A → Exec S B) → Exec S B
continue (ok a) f s = f a s
continue (raise e) f s = (raise e, s)

abbrev pub bind {ℓ} : {S A B : Type ℓ} → Exec S A → (A → Exec S B) → Exec S B
bind m f s = continue (m s).0 f (m s).1

abbrev pub lift {ℓ} : {S A : Type ℓ} → Result A → Exec S A
lift r s = (r, s)

-- inversion of a block that succeeds
pub refuse_if-ok {ℓ} :
    {B : Type ℓ} (b : Bool) (e : Error) (k : Result B) {x : B}
    → (refuse_if b e >> k) ≡ ok x
    → (b ≡ false) × (k ≡ ok x)
refuse_if-ok true e k h = cc
refuse_if-ok false e k h = (refl, h)

pub >>=-ok {ℓ} :
    {A B : Type ℓ} (first : Result A) (next : A → Result B) {result : B}
    → (first >>= next) ≡ ok result
    → (value : A) × (first ≡ ok value) × (next value ≡ ok result)
>>=-ok (raise error) next made = cc
>>=-ok (ok value) next made = (value, refl, made)

pub Result-cases {ℓ} :
    {A : Type ℓ} (r : Result A) → ((a : A) × (r ≡ ok a)) ⊎ ((e : Error) × (r ≡ raise e))
Result-cases (ok a) = inl (a, refl)
Result-cases (raise e) = inr (e, refl)
