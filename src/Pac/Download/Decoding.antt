-- ===== src/Pac/Download/Decoding.antt =====
-- src/proxylib/pac/script.py: reading the bytes of a script as a text.
use proxylib.Prelude.{ℕ, ◌<◌, ◌≡◌, refl, false, some, [], ◌∷◌, All, arith}
use proxylib.Python.Text.{starts_with}
use proxylib.Pac.Child.{Bytes}
use proxylib.Pac.Download.{lead, next_byte, at_start, push_code, scan, utf_8_sig, decode}

lead_ascii : (b : ℕ) → b < 128 → next_byte at_start b ≡ some (record at_start { code = b })
unfolding next_byte lead
lead_ascii b h = ground (arith, h)

scan_ascii :
    (c : ℕ) (body : Bytes)
    → All (λ b. b < 128) body
    → scan (record at_start { code = c }) body ≡ some body
unfolding scan push_code next_byte
scan_ascii c [] h = refl
scan_ascii c (b ∷ body) (h, hs) = rw (scan, lead_ascii b h, scan_ascii b body hs) refl

no_mark : (body : Bytes) → All (λ b. b < 128) body → starts_with body (239 ∷ 187 ∷ 191 ∷ []) ≡ false
unfolding starts_with
no_mark [] h = refl
no_mark (b ∷ body) (h, hs) = ground (arith, h)

-- A body of ASCII bytes is read as the text with these characters.
pub decode_ascii : (body : Bytes) → All (λ b. b < 128) body → decode body ≡ body
unfolding decode utf_8_sig
decode_ascii body h = rw (decode, utf_8_sig, no_mark body h, scan_ascii 0 body h) refl
