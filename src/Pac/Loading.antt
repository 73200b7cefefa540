-- ===== src/Pac/Loading.antt =====
-- src/proxylib/pac/__init__.py: `load`, `loads` and `_load_any`, with `PacScript.from_url` and `from_file` of
-- script.py. Opening a URL, reading a file and starting the helper process are arguments.
use proxylib.Prelude.{
  ℕ, ◌≡◌, refl, Bool, true, false, not, Option, none, some, if◌then◌else◌, drop, Bool-cases, inl,
  inr, ◌*◌,
}
use proxylib.Python.Exec.{
  Result, ok, raise, pac_error, value_error, Exec, Result-cases, refuse_if-ok,
}
use proxylib.Python.Text.{Text, text, starts_with, contains}
use proxylib.Pac.Child.{Bytes}
use proxylib.Pac.Script.{PacScript, Outcome}
use proxylib.Pac.Engines.{OnMissing, is_other, init}
use proxylib.Pac.Download.{World, fetch, utf_8_sig}

-- `MAX_PAC_BYTES`
abbrev pub max_pac_bytes : ℕ
max_pac_bytes = 1024 * 1024

-- the options of a script: the engine, `on_missing_engine` and the cache's time
pub record Options : Type 0 where
  pub engine : Option Text
  pub on_missing_engine : OnMissing
  pub cache_ttl : Option ℕ

-- the engines installed, `PROXYLIB_JS_ENGINE`, the monotonic clock, and what is outside
pub record Outside (S : Type 0) : Type 0 where
  pub installed : Text → Bool
  pub js_engine : Text
  pub monotonic : S → ℕ
  pub urlopen : Text → Exec S Bytes
  pub read_bytes : Text → Exec S Bytes
  pub starts : Text → Outcome (Unit {0})

module _ {S : Type 0} (outside : Outside S) where
  unfoldable pub script_of : Options → Text → Result PacScript
  script_of options source =
      init outside.installed source options.engine outside.js_engine options.on_missing_engine
        (outside.starts source)

  -- `loads`
  unfoldable pub loads : Options → Text → Exec (World S) PacScript
  loads options source w = (script_of options source, w)

  unfoldable pub then_script : Options → Result Text → World S → Result PacScript × World S
  then_script options (raise e) w = (raise e, w)
  then_script options (ok source) w = (script_of options source, w)

  -- `PacScript.from_url`
  unfoldable pub from_url : Options → Text → Exec (World S) PacScript
  unfolding then_script
  from_url options url w =
      let (source, w') =
        fetch outside.monotonic outside.urlopen url max_pac_bytes options.cache_ttl w in
      then_script options source w'

  -- `Path(path).read_text(encoding="utf-8-sig")`
  unfoldable pub decoded : Result Bytes → Result Text
  decoded (raise e) = raise e
  decoded (ok body) = elim (utf_8_sig body) [ none ↦ raise value_error | some source ↦ ok source ]

  -- `PacScript.from_file`
  unfoldable pub from_file : Options → Text → Exec (World S) PacScript
  unfolding then_script
  from_file options path w =
      let (body, s) = outside.read_bytes path w.rest in
      then_script options (decoded body) (record w { rest = s })

  -- `load`
  unfoldable pub load : Options → Text → Exec (World S) PacScript
  load options location w =
      if contains location (text "://")
      then from_url options location w
      else if starts_with location (text "file:")
      then from_file options (drop 5 location) w
      else from_file options location w

  -- `_load_any`
  unfoldable pub load_any : Options → Text → Exec (World S) PacScript
  load_any options source w =
      if contains source (text "FindProxyForURL")
      then loads options source w
      else load options source w

  -- a script is made of a text that defines the function
  abbrev pub Defined : Options → Result PacScript → Type 0
  Defined options (raise e) = Unit {0}
  Defined options (ok script) =
      (source : Text) × (contains source (text "FindProxyForURL") ≡ true)
      × (script_of options source ≡ ok script)

  script_of_defines :
      (options : Options) (source : Text) (s : PacScript)
      → script_of options source ≡ ok s
      → contains source (text "FindProxyForURL") ≡ true
  unfolding script_of init
  script_of_defines options source s e =
      let (known, rest) = refuse_if-ok (is_other options.on_missing_engine) value_error _ e in
      let (defined, made) =
        refuse_if-ok (not (contains source (text "FindProxyForURL"))) pac_error _ rest in
      not_false (contains source (text "FindProxyForURL")) defined
    where
      not_false : (b : Bool) → not b ≡ false → b ≡ true
      not_false true h = refl
      not_false false h = cc

  script_of-Defined :
      (options : Options) (source : Text) → Defined options (script_of options source)
  script_of-Defined options source = elim (Result-cases (script_of options source)) [
    | inr (x, e) ↦ rw e tt
    | inl (s, e) ↦ rw e (source, script_of_defines options source s e, e)
  ]

  then_script-Defined :
      (options : Options) (r : Result Text) (w : World S)
      → Defined options (then_script options r w).0
  unfolding then_script
  then_script-Defined options (raise e) w = tt
  then_script-Defined options (ok source) w = script_of-Defined options source

  load-Defined :
      (options : Options) (location : Text) (w : World S)
      → Defined options (load options location w).0
  unfolding load from_url from_file
  load-Defined options location w = elim (Bool-cases (contains location (text "://"))) [
    | inl e ↦ rw e (then_script-Defined options _ _)
    | inr e ↦ rw e (elim (Bool-cases (starts_with location (text "file:"))) [
      | inl f ↦ rw f (then_script-Defined options _ _)
      | inr f ↦ rw f (then_script-Defined options _ _)
    ])
  ]

  -- A configured value that is loaded as a PAC raises, or gives a script whose text names
  -- `FindProxyForURL`, whether it is that text, a file or a download; and the text itself is used without
  -- reading a file or opening a URL.
  pub load_any-Defined :
      (options : Options) (source : Text) (w : World S)
      → Defined options (load_any options source w).0
        × (contains source (text "FindProxyForURL") ≡ true → (load_any options source w).1 ≡ w)
  unfolding load_any loads
  load_any-Defined options source w = elim (Bool-cases (contains source (text "FindProxyForURL"))) [
    | inl e ↦ (rw e (script_of-Defined options source), λ h. rw e refl)
    | inr e ↦ (rw e (load-Defined options source w), λ h. cc)
  ]
