-- ===== src/Pac/Download.antt =====
-- src/proxylib/pac/script.py: `_fetch`, how the text of a PAC script is downloaded, and its cache. The
-- opener of `urllib` and the monotonic clock are arguments.
pub mod Decoding
pub mod Again
use proxylib.Prelude.{
  ℕ, zero, suc, ◌+◌, ◌-◌, ◌*◌, Bool, true, false, not, ◌&&◌, ◌||◌, Option, none, some, List, [],
  ◌∷◌, leb, ltb, eqb, if◌then◌else◌, length, take, or_else, drop,
}
use proxylib.Python.Exec.{Result, ok, raise, pac_error, Exec}
use proxylib.Python.Text.{Text, text, lower, starts_with, ◌==◌}
use proxylib.Python.Dict
use proxylib.Python.Dict.{Dict}
use proxylib.Pac.Child.{Bytes}

-- `bytes.decode("utf-8")`. A character that is being read: how many bytes it still needs, the bounds
-- of the next of them, and its code so far.
pub record Partial : Type 0 where
  pub needs : ℕ
  pub lowest : ℕ
  pub highest : ℕ
  pub code : ℕ

partial : ℕ → ℕ → ℕ → ℕ → Option Partial
partial n lo hi c = some (record { needs = n; lowest = lo; highest = hi; code = c })

-- the first byte of a character
unfoldable pub lead : ℕ → Option Partial
unfolding partial
lead b =
    if ltb b 128
    then partial 0 128 191 b
    else if leb 194 b && leb b 223
    then partial 1 128 191 (b - 192)
    else if eqb b 224
    then partial 2 160 191 0
    else if eqb b 237
    then partial 2 128 159 13
    else if leb 225 b && leb b 239
    then partial 2 128 191 (b - 224)
    else if eqb b 240
    then partial 3 144 191 0
    else if eqb b 244
    then partial 3 128 143 4
    else if leb 241 b && leb b 243
    then partial 3 128 191 (b - 240)
    else none

-- the next byte of a character, or the first of one
unfoldable pub next_byte : Partial → ℕ → Option Partial
unfolding partial
next_byte p b = elim p.needs [
  | zero ↦ lead b
  | suc n ↦
      if leb p.lowest b && leb b p.highest
      then partial n 128 191 (p.code * 64 + (b - 128))
      else none
]

abbrev pub at_start : Partial
at_start = record { needs = 0; lowest = 128; highest = 191; code = 0 }

unfoldable pub push_code : ℕ → Option Text → Option Text
push_code c none = none
push_code c (some s) = some (c ∷ s)

unfoldable pub scan : Partial → Bytes → Option Text
scan p [] = if eqb p.needs 0 then some [] else none
scan p (b ∷ bytes) = elim (next_byte p b) [
  | none ↦ none
  | some q ↦ let rest = scan q bytes in if eqb q.needs 0 then push_code q.code rest else rest
]

-- `bytes.decode("utf-8-sig")`, which drops a mark at the start
unfoldable pub utf_8_sig : Bytes → Option Text
utf_8_sig bytes =
    if starts_with bytes (239 ∷ 187 ∷ 191 ∷ [])
    then scan at_start (drop 3 bytes)
    else scan at_start bytes

-- the text of a body: Latin-1 gives each byte its own character
unfoldable pub decode : Bytes → Text
decode body = or_else (utf_8_sig body) body

-- `_download_cache`, and the rest of the world
pub record World (S : Type 0) : Type 0 where
  pub download_cache : Dict Text (ℕ × Text)
  pub rest : S

-- a URL whose text is not kept
unfoldable pub is_file : Text → Bool
is_file url = starts_with (lower url) (text "file:")

-- `network and cache_ttl`
unfoldable pub is_kept : Text → Option ℕ → Bool
is_kept url cache_ttl = not (is_file url) && ltb 0 (or_else cache_ttl 0)

module _ {S : Type 0} (monotonic : S → ℕ) (urlopen : Text → Exec S Bytes) where
  -- the text that is fresh in the cache
  unfoldable pub cached_text : Text → Option ℕ → World S → Option Text
  cached_text url cache_ttl w =
      if is_kept url cache_ttl
      then (elim (Dict.get ◌==◌ w.download_cache url) [
        | none ↦ none
        | some (stored, script) ↦
            if ltb (monotonic w.rest - stored) (or_else cache_ttl 0) then some script else none
      ])
      else none

  -- the body that was read, at most one byte more than the limit
  unfoldable pub store_body : Text → ℕ → Option ℕ → Bytes → Exec (World S) Text
  store_body url max_bytes cache_ttl body w =
      if ltb max_bytes (length body)
      then (raise pac_error, w)
      else if is_kept url cache_ttl
      then (
        ok (decode body),
        record w {
          download_cache = Dict.set ◌==◌ w.download_cache url (monotonic w.rest, decode body);
        },
      )
      else (ok (decode body), w)

  unfoldable pub download : Text → ℕ → Option ℕ → Exec (World S) Text
  download url max_bytes cache_ttl w =
      let (response, s) = urlopen url w.rest in
      elim response [
        | raise e ↦ (raise e, record w { rest = s })
        | ok body ↦
            store_body url max_bytes cache_ttl (take (max_bytes + 1) body) (record w { rest = s })
      ]

  -- `_fetch`
  unfoldable pub fetch : Text → ℕ → Option ℕ → Exec (World S) Text
  fetch url max_bytes cache_ttl w = elim (cached_text url cache_ttl w) [
    | some script ↦ (ok script, w)
    | none ↦ download url max_bytes cache_ttl w
  ]
