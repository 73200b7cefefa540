-- ===== src/Pac/Child/Replying.antt =====
-- src/proxylib/pac/_child.py: the replies of the helper process, which its parent reads in order.
use proxylib.Prelude.{ℕ, suc, ◌≡◌, refl, ap, Option, none, some, List, [], ◌∷◌, length, inl, inr}
use proxylib.Python.Exec.{Result, ok, raise, exception, Result-cases}
use proxylib.Pac.Child.{
  Message, init, call, other_message, Reply, value, err, Engines, start_script, answer, serve, main,
}

-- the frames that are answered: those up to the end of the stream or to a message of another kind
abbrev pub requests_in : List (Result (Option Message)) → ℕ
requests_in [] = 0
requests_in (raise e ∷ frames) = suc (requests_in frames)
requests_in (ok none ∷ frames) = 0
requests_in (ok (some (init name source)) ∷ frames) = suc (requests_in frames)
requests_in (ok (some (call url host)) ∷ frames) = suc (requests_in frames)
requests_in (ok (some other_message) ∷ frames) = 0

module _ {E V : Type 0} (engines : Engines E V) where
  -- "init" and "call" are answered, whatever the engine does
  answer-init :
      (name source : _) (engine : Option E)
      → (reply : Reply V) × (engine' : Option E) × (answer engines (init name source) engine
          ≡ some (reply, engine'))
  unfolding answer
  answer-init name source engine = elim (Result-cases (engines.load name)) [
    | inl (made, e) ↦ (
      (start_script engines source made).0,
      (start_script engines source made).1,
      rw (answer, e) refl,
    )
    | inr (x, e) ↦ (err x, engine, rw (answer, e) refl)
  ]

  answer-call :
      (url host : _) (engine : Option E)
      → (reply : Reply V) × (engine' : Option E) × (answer engines (call url host) engine
          ≡ some (reply, engine'))
  unfolding answer
  answer-call url host none = (err exception, none, refl)
  answer-call url host (some engine) =
      elim (Result-cases (engines.call_function url host engine).0) [
        | inl (v, e) ↦
            (value v, some (engines.call_function url host engine).1, rw (answer, e) refl)
        | inr (x, e) ↦ (err x, some (engines.call_function url host engine).1, rw (answer, e) refl)
      ]

  length-serve :
      (frames : List (Result (Option Message))) (engine : Option E)
      → length (serve engines frames engine) ≡ requests_in frames
  unfolding serve answer
  length-serve [] engine = refl
  length-serve (raise e ∷ frames) engine = ap suc (length-serve frames engine)
  length-serve (ok none ∷ frames) engine = refl
  length-serve (ok (some (init name source)) ∷ frames) engine =
      let (reply, engine', e) = answer-init name source engine in
      rw (serve, e) (ap suc (length-serve frames engine'))
  length-serve (ok (some (call url host)) ∷ frames) engine =
      let (reply, engine', e) = answer-call url host engine in
      rw (serve, e) (ap suc (length-serve frames engine'))
  length-serve (ok (some other_message) ∷ frames) engine = refl

  -- The helper writes one reply when it is ready and then exactly one for each request, in whatever way
  -- the script, the engine or the reading of a request fails, so that the parent's next reply is always
  -- the one to its request.
  pub length-main :
      (frames : List (Result (Option Message)))
      → length (main engines frames) ≡ suc (requests_in frames)
  unfolding main
  length-main frames = ap suc (length-serve frames none)
