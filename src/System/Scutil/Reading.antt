-- ===== src/System/Scutil/Reading.antt =====
-- src/proxylib/system/_darwin.py: that reading the dump of `scutil` ends, and what it takes for an exception.
use proxylib.Prelude.{
  ℕ, ◌+◌, ◌≤◌, ◌≡◌, Bool, false, Option, none, some, List, [], ◌∷◌, length, All, if◌then◌else◌,
}
use proxylib.Python.Exec.{Result, ok}
use proxylib.Python.Text.{Text, text, strip, cut}
use proxylib.System.Scutil.{Fields, empty, field, opens_block, max_str_digits}

-- a line opens a block, by its key and what follows
abbrev opens_at : Option (Text × Text) → Bool
opens_at none = false
opens_at (some (key, rest)) = opens_block (strip rest)

abbrev pub opens : Text → Bool
opens line = opens_at (cut (text ":") (strip line))

-- the key that a line has
abbrev key_at : Option (Text × Text) → Text
key_at none = []
key_at (some (key, rest)) = strip key

abbrev pub key_in : Text → Text
key_in line = key_at (cut (text ":") (strip line))

-- how many lines open a block
abbrev pub blocks : List Text → ℕ
blocks [] = 0
blocks (line ∷ lines) = (if opens line then 1 else 0) + blocks lines

abbrev pub ShortKey : Text → Type 0
ShortKey line = length (key_in line) ≤ max_str_digits

-- the keys of a block can be read as numbers where they are made of digits
abbrev ShortKeys : Fields → Type 0
ShortKeys empty = Unit
ShortKeys (field k v fs) = (length k ≤ max_str_digits) × ShortKeys fs

-- the block was read, and its reader left some of the lines that there were
record Rest (left lines : List Text) : Type 0 where
  fewer : length left ≤ length lines
  flatter : blocks left ≤ blocks lines
  short : All ShortKey left

abbrev Reads : Option (Result (Fields × List Text)) → List Text → Type 0
Reads r lines =
    (fields : Fields) × (left : List Text) × (r ≡ some (ok (fields, left)))
    × ShortKeys fields
    × Rest left lines
