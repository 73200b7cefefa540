-- ===== src/Examples/Rules.antt =====
-- Bypass rules and the environment at concrete inputs.
use proxylib.Prelude.{◌≡◌, refl, false, none, some, [], ◌∷◌, ◌++◌, arith}
use proxylib.Python.Text.{text, ◌==◌, cut, lstrip, rstrip, rcut, is_space, starts_with, lower_char}
use proxylib.Python.Url.{urlsplit, hostname, port}
use proxylib.Net.{default_port}
use proxylib.Python.Exec.{◌>>=◌}
use proxylib.Python.Dict
use proxylib.BypassEntry.{Target, target_of, no_proxy, target}
use proxylib.BypassRules.{union, parse, items, dialect_of, entries_of}
use proxylib.BypassRules.Laws.{parse-append}
use proxylib.Env.{read_env}
use proxylib.Env.Reading.{read_env_httpoxy}
use proxylib.Samples.{offline}

abbrev visited : Target
visited = record { scheme = text "http"; host = text "a.x.y"; port = some 80 }

target-visited : target (text "http://a.x.y") ≡ some visited
unfolding target urlsplit cut lstrip starts_with port rcut target_of hostname lower_char
    default_port ◌==◌
target-visited = refl

parse-append_example :
    (do
      a ← parse (items (text ".x.y" ∷ [])) (text "no_proxy") false
      b ← parse (items (text "z" ∷ [])) (text "no_proxy") false
      union a b)
    ≡ parse (items ((text ".x.y" ∷ []) ++ text "z" ∷ [])) (text "no_proxy") false
unfolding ◌==◌ rstrip lstrip is_space
parse-append_example =
    parse-append (text "no_proxy") (text ".x.y" ∷ []) (text "z" ∷ []) no_proxy
      (unfold dialect_of in refl) (unfold entries_of in refl) (unfold entries_of in refl)
      (unfold entries_of in refl)

read_env_httpoxy_example :
    Dict.get ◌==◌
      (read_env false
        ((text "REQUEST_METHOD", text "GET") ∷ (text "HTTP_PROXY", text "evil") ∷ [])).proxies
      (text "http")
    ≡ none
unfolding ◌==◌
read_env_httpoxy_example =
    read_env_httpoxy false
      ((text "REQUEST_METHOD", text "GET") ∷ (text "HTTP_PROXY", text "evil") ∷ [])
      (unfold Dict.get in refl) (λ e. ground arith, (λ e. ground arith, tt))
