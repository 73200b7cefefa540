-- ===== src/Examples/Pipes.antt =====
-- PAC scripts and their helper process, at concrete inputs.
use proxylib.Prelude.{ℕ, ◌+◌, or_else, ◌≡◌, refl, true, some, Option, [], ◌∷◌, ◌++◌}
use proxylib.Python.Exec.{Result, ok, raise, exception, pac_error}
use proxylib.Python.Text.{Text, text, cut, lstrip, starts_with, lower_char}
use proxylib.Python.Url.{SplitResult, urlsplit, hostname}
use proxylib.Pac.Child.{Bytes, pack, Pickle, write_frame, read_frame, Engines}
use proxylib.Pac.Child.Framing.{read_frame-write_frame}
use proxylib.Pac.Map.{
  function, pac_script, seen_url, pac_getitem, Answered, pac_getitem-Answered, pac_getitem-hides,
}
use proxylib.Samples.{offline}

-- a message that is its own pickle
abbrev plain : Pickle Bytes
plain = record { dumps = λ m. m; loads = λ m. ok m }

three_written : write_frame plain (7 ∷ 8 ∷ 9 ∷ []) ≡ ok (0 ∷ 0 ∷ 0 ∷ 3 ∷ 7 ∷ 8 ∷ 9 ∷ [])
unfolding write_frame pack
three_written = refl

read_frame-write_frame_example :
    read_frame plain ((0 ∷ 0 ∷ 0 ∷ 3 ∷ 7 ∷ 8 ∷ 9 ∷ []) ++ (1 ∷ 2 ∷ []))
    ≡ (ok (some (7 ∷ 8 ∷ 9 ∷ [])), 1 ∷ 2 ∷ [])
read_frame-write_frame_example =
    read_frame-write_frame plain (7 ∷ 8 ∷ 9 ∷ []) (0 ∷ 0 ∷ 0 ∷ 3 ∷ 7 ∷ 8 ∷ 9 ∷ []) (1 ∷ 2 ∷ []) refl
      three_written

-- an engine that counts its calls, and refuses them all
abbrev refusing : Engines ℕ Text
refusing = record {
  load = λ name. ok 0;
  eval = λ source n. (ok tt, n);
  is_defined = λ n. (ok true, n);
  call_function = λ url host n. (raise exception, n + 1);
}

-- a site, and a page of it
abbrev site_parts : SplitResult
site_parts = record {
  scheme = text "https";
  netloc = text "www.corp";
  path = text "/a";
  query = [];
  fragment = [];
}

site_split : urlsplit (text "https://www.corp/a") ≡ ok site_parts
unfolding urlsplit cut lstrip starts_with lower_char
site_split = refl

abbrev failing : Text → Text → ℕ → Result (Option Text) × ℕ
failing url host n = (raise exception, n + 1)

abbrev choosing : Text → Text → ℕ → Result Text × ℕ
choosing url host n = (ok (text "PROXY squid:3128"), n + 1)

pac_getitem-Answered_example :
    Answered
      (λ e. pac_error)
      (failing
        (seen_url true site_parts (text "https://www.corp/a"))
        (or_else (hostname site_parts) [])
        0).0
      (pac_getitem true (function failing) (text "https://www.corp/a") 0).0
    × Answered
        (λ e. e)
        (choosing
          (seen_url true site_parts (text "https://www.corp/a"))
          (or_else (hostname site_parts) [])
          0).0
        (pac_getitem true (pac_script choosing) (text "https://www.corp/a") 0).0
pac_getitem-Answered_example =
    pac_getitem-Answered true failing choosing (text "https://www.corp/a") 0 site_parts site_split

abbrev page_parts : SplitResult
page_parts = record site_parts { path = text "/b"; query = text "q" }

page_split : urlsplit (text "https://www.corp/b?q") ≡ ok page_parts
unfolding urlsplit cut lstrip starts_with lower_char
page_split = refl

pac_getitem-hides_example :
    pac_getitem true (pac_script choosing) (text "https://www.corp/b?q") 0
    ≡ pac_getitem true (pac_script choosing) (text "https://www.corp/a") 0
unfolding lower_char
pac_getitem-hides_example =
    pac_getitem-hides (pac_script choosing) (text "https://www.corp/a")
      (text "https://www.corp/b?q") 0 site_parts page_parts site_split page_split refl refl refl
