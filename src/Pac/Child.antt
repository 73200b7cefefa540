-- ===== src/Pac/Child.antt =====
-- src/proxylib/pac/_child.py: the frames between a PAC script's helper process and its parent, and the
-- loop of the helper. A message, which is never `None`, is pickled by Python, and an engine runs the
-- script: both are arguments.
pub mod Framing
pub mod Replying
use proxylib.Prelude.{
  ℕ, zero, suc, ◌+◌, ◌*◌, ◌/◌, ◌%◌, ◌^◌, Bool, true, false, not, Option, none, some, List, [], ◌∷◌,
  ◌++◌, ltb, if◌then◌else◌, length, take, drop,
}
use proxylib.Python.Exec.{Error, Result, ok, raise, exception, value_error, ◌>>=◌, ◌>>◌, refuse_if}
use proxylib.Python.Text.{Text, text}

abbrev pub Bytes : Type 0
Bytes = List ℕ

-- `_HEADER`: an unsigned number of 4 bytes, the highest first; a larger one is `struct.error`
unfoldable pub pack : ℕ → Result Bytes
pack n =
    if ltb n (2 ^ 32)
    then ok (n / 2 ^ 24 ∷ n / 2 ^ 16 % 256 ∷ n / 2 ^ 8 % 256 ∷ n % 256 ∷ [])
    else raise exception

unfoldable pub unpack : ℕ → ℕ → ℕ → ℕ → ℕ
unpack a b c d = a * 2 ^ 24 + b * 2 ^ 16 + c * 2 ^ 8 + d

-- `pickle.dumps` and `pickle.loads`
pub record Pickle (M : Type 0) : Type 0 where
  pub dumps : M → Bytes
  pub loads : Bytes → Result M

module _ {M : Type 0} (pickle : Pickle M) where
  -- `write_frame`: what is written to the stream
  unfoldable pub write_frame : M → Result Bytes
  write_frame message = do
    header ← pack (length (pickle.dumps message))
    ok (header ++ pickle.dumps message)

  -- `pickle.loads(data)`, as the message that was read
  unfoldable pub loaded : Result M → Result (Option M)
  loaded (ok message) = ok (some message)
  loaded (raise e) = raise e

  -- the body of the frame, after the header
  unfoldable pub read_body : ℕ → Bytes → Result (Option M) × Bytes
  read_body size stream =
      if ltb (length (take size stream)) size
      then (ok none, drop size stream)
      else (loaded (pickle.loads (take size stream)), drop size stream)

  -- `read_frame`, and the rest of the stream; `None` is the end of the stream
  unfoldable pub read_frame : Bytes → Result (Option M) × Bytes
  read_frame (a ∷ b ∷ c ∷ d ∷ stream) = read_body (unpack a b c d) stream
  read_frame stream = (ok none, [])

-- the messages of the parent, and the replies
pub data Message : Type 0 where
  init : Text → Text → Message
  call : Text → Text → Message
  other_message : Message

pub data Reply (V : Type 0) : Type 0 where
  ready : Reply V
  done : Reply V
  value : V → Reply V
  err : Error → Reply V

-- an engine for the script: making it, setting its memory limit and the builtins and running the
-- script, whether the script is one, and calling it
pub record Engines (E V : Type 0) : Type 0 where
  pub load : Text → Result E
  pub eval : Text → E → Result (Unit {0}) × E
  pub is_defined : E → Result Bool × E
  pub call_function : Text → Text → E → Result V × E

module _ {E V : Type 0} (engines : Engines E V) where
  -- whether the script defines the function
  unfoldable pub check_script : E → Reply V × Option E
  check_script engine =
      let (defined, engine') = engines.is_defined engine in
      elim defined [
        | raise e ↦ (err e, some engine')
        | ok true ↦ (done, some engine')
        | ok false ↦ (err value_error, some engine')
      ]

  -- the answer to "init" once the engine is made
  unfoldable pub start_script : Text → E → Reply V × Option E
  start_script source engine =
      let (r, engine') = engines.eval source engine in
      elim r [ raise e ↦ (err e, some engine') | ok _ ↦ check_script engine' ]

  -- one message; `none` ends the loop. Before "init" there is no engine to call.
  unfoldable pub answer : Message → Option E → Option (Reply V × Option E)
  answer (init name source) engine = elim (engines.load name) [
    | raise e ↦ some (err e, engine)
    | ok made ↦ some (start_script source made)
  ]
  answer (call url host) none = some (err exception, none)
  answer (call url host) (some engine) =
      let (r, engine') = engines.call_function url host engine in
      elim r [ ok v ↦ some (value v, some engine') | raise e ↦ some (err e, some engine') ]
  answer other_message engine = none

  -- the `while` loop, over what reading each frame comes to
  unfoldable pub serve : List (Result (Option Message)) → Option E → List (Reply V)
  serve [] engine = []
  serve (raise e ∷ frames) engine = err e ∷ serve frames engine
  serve (ok none ∷ frames) engine = []
  serve (ok (some message) ∷ frames) engine = elim (answer message engine) [
    | none ↦ []
    | some (reply, engine') ↦ reply ∷ serve frames engine'
  ]

  -- `main`
  unfoldable pub main : List (Result (Option Message)) → List (Reply V)
  main frames = ready ∷ serve frames none
