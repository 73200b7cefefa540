-- ===== src/BypassRules.antt =====
-- src/proxylib/bypass.py: the class `BypassRules`.
pub mod Laws
use proxylib.Prelude.{
  ℕ, Bool, true, false, not, ◌&&◌, ◌||◌, Option, none, some, List, [], ◌∷◌, ◌++◌, map,
  if◌then◌else◌, any, keep, eqb, is_nil,
}
use proxylib.Python.Exec.{Result, ok, raise, value_error, ◌>>=◌, ◌>>◌, refuse_if}
use proxylib.Python.Text.{Text, text, lower, strip, is_space, is_empty, runs, ◌==◌}
use proxylib.Net.{Netimps}
use proxylib.BypassEntry.{
  Target, Rule, Dialect, no_proxy, wininet, macos, gsettings, kde, applies, is_loopback, target,
  parse_entry,
}

pub record BypassRules : Type 0 where
  pub rules : List Rule
  pub texts : List (Dialect × Text)
  pub loopback : Bool
  pub reversed : Bool

-- `BypassRules.NONE`
abbrev pub no_rules : BypassRules
no_rules = record { rules = []; texts = []; loopback = true; reversed = false }

-- `bool(rules)`
abbrev pub has_rules : BypassRules → Bool
has_rules r = not (is_nil r.rules)

abbrev pub joined : BypassRules → BypassRules → BypassRules
joined a b = record {
  rules = a.rules ++ b.rules;
  texts = a.texts ++ b.texts;
  loopback = a.loopback && b.loopback;
  reversed = false;
}

-- `a | b`
unfoldable pub union : BypassRules → BypassRules → Result BypassRules
union a b = do refuse_if (a.reversed || b.reversed) value_error; ok (joined a b)

unfoldable pub dialect_of : Text → Option Dialect
dialect_of s =
    if s == text "no_proxy"
    then some no_proxy
    else if s == text "wininet"
    then some wininet
    else if s == text "macos"
    then some macos
    else if s == text "gsettings"
    then some gsettings
    else if s == text "kde"
    then some kde
    else none

abbrev pub is_kde : Dialect → Bool
is_kde kde = true
is_kde _ = false

abbrev pub is_no_proxy : Dialect → Bool
is_no_proxy no_proxy = true
is_no_proxy _ = false

-- a bypass list: absent, one text, or its entries
pub data Source : Type 0 where
  absent : Source
  whole : Text → Source
  items : List Text → Source

-- `_SEPARATORS`
unfoldable pub separates : Dialect → ℕ → Bool
separates wininet c = eqb c b';' || is_space c
separates _ c = eqb c b',' || is_space c

unfoldable pub entries_of : Dialect → Source → List Text
unfolding separates
entries_of dialect absent = []
entries_of dialect (whole s) = runs (separates dialect) [] (strip s)
entries_of dialect (items es) = keep (λ e. not (is_empty e)) (map strip es)

-- `entries == ["*"]`
abbrev pub whole_star : List Text → Bool
whole_star (e ∷ []) = e == text "*"
whole_star _ = false

module _ ⦃net : Netimps⦄ where
  -- what the loop has gathered: the rules with their texts, whether loopback is still bypassed, and
  -- the entries of the warning
  pub record Gathered : Type 0 where
    pub rules : List Rule
    pub texts : List (Dialect × Text)
    pub loopback : Bool
    pub bad : List Text

  unfoldable pub add_entry : Dialect → Bool → Text → Gathered → Gathered
  add_entry dialect star entry rest =
      if lower entry == text "<-loopback>"
      then record rest { texts = (dialect, entry) ∷ rest.texts; loopback = false }
      else if lower entry == text "*" && not star && is_no_proxy dialect
      then rest
      else elim (parse_entry entry dialect) [
        | none ↦ record rest { bad = entry ∷ rest.bad }
        | some rule ↦ record rest {
          rules = rule ∷ rest.rules;
          texts = (dialect, entry) ∷ rest.texts;
        }
      ]

  -- the loop of `parse`
  unfoldable pub gather : Dialect → Bool → List Text → Gathered
  gather dialect star [] = record { rules = []; texts = []; loopback = true; bad = [] }
  gather dialect star (entry ∷ entries) = add_entry dialect star entry (gather dialect star entries)

  abbrev pub rules_of : Bool → Gathered → BypassRules
  rules_of reversed g = record {
    rules = g.rules;
    texts = g.texts;
    loopback = g.loopback;
    reversed = reversed;
  }

  -- `BypassRules.parse(source, dialect=dialect, reversed=reversed)`
  unfoldable pub parse : Source → Text → Bool → Result BypassRules
  parse source dialect reversed = elim (dialect_of dialect) [
    | none ↦ raise value_error
    | some d ↦ do
      refuse_if (reversed && not (is_kde d)) value_error
      ok (rules_of reversed (gather d (whole_star (entries_of d source)) (entries_of d source)))
  ]

  -- whether a rule names the target
  abbrev pub listed : BypassRules → Target → Bool
  listed r t = any (λ rule. applies rule t) r.rules

  abbrev pub matches_target : BypassRules → Target → Bool
  matches_target r t =
      (r.loopback && is_loopback t) || (if r.reversed then not (listed r t) else listed r t)

  unfoldable pub matches : BypassRules → Text → Bool
  matches r url = elim (target url) [ none ↦ false | some t ↦ matches_target r t ]
