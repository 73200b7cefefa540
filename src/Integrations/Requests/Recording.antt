-- ===== src/Integrations/Requests/Recording.antt =====
-- src/proxylib/integrations/requests.py: `_record_caller`, which wraps two methods of `requests.Session`.
-- The methods that it wraps, how requests binds the arguments of `request` and its `merge_setting` are
-- arguments.
use proxylib.Prelude.{◌≡◌, ◌∙◌, Bool, Option, none, some, Option-cases, inl, inr}

-- `Session`, less what the wrappers do not read
pub record Session (G : Type 0) : Type 0 where
  pub trust_env : Bool
  pub proxies : G

-- the context variable `_CALLER`, and the rest of the program's state
pub record Context (G S : Type 0) : Type 0 where
  pub current : Option (Bool × G)
  pub rest : S

-- a method of a session: its arguments `A`, and what it comes to `O`, an exception included
abbrev pub Method : Type 0 → Type 0 → Type 0 → Type 0 → Type 0
Method G S A O = Session G → A → Context G S → O × Context G S

-- the attributes of the class
pub record SessionClass (G S A B O : Type 0) : Type 0 where
  pub request : Method G S A O
  pub send : Method G S B O

-- the `proxies` of the arguments; `none` is a `TypeError` of `bind_partial`
unfoldable pub bound_proxies : {G : Type 0} → Option (Option G) → Option G
bound_proxies none = none
bound_proxies (some proxies) = proxies

unfoldable pub caller : {G : Type 0} → (Option G → G → G) → Session G → Option G → Bool × G
caller merge_setting session proxies = (session.trust_env, merge_setting proxies session.proxies)

-- `token = _CALLER.set(…)`, the call, and `_CALLER.reset(token)` in the `finally`
unfoldable pub with_caller :
    {G S O : Type 0} → Bool × G → (Context G S → O × Context G S) → Context G S → O × Context G S
with_caller found call c =
    let (o, c') = call (record c { current = some found }) in (o, record c' { current = c.current })

module _ {G S : Type 0} (merge_setting : Option G → G → G) where
  -- the wrapper of `Session.request`; `bind_partial` binds its arguments
  unfoldable pub request :
      {A O : Type 0} → (A → Option (Option G)) → Method G S A O → Method G S A O
  request bind_partial original session args =
      with_caller (caller merge_setting session (bound_proxies (bind_partial args)))
        (original session args)

  -- the wrapper of `Session.send`; `proxies_of` is `kwargs.get("proxies")`
  unfoldable pub send : {B O : Type 0} → (B → Option G) → Method G S B O → Method G S B O
  send proxies_of original session args c = elim c.current [
    | some _ ↦ original session args c
    | none ↦ with_caller (caller merge_setting session (proxies_of args)) (original session args) c
  ]

  -- `_record_caller` and the function that it returns
  unfoldable pub record_caller :
      {A B O : Type 0}
      → (A → Option (Option G))
      → (B → Option G)
      → SessionClass G S A B O
      → SessionClass G S A B O
  record_caller bind_partial proxies_of cls = record {
    request = request bind_partial cls.request;
    send = send proxies_of cls.send;
  }

  unfoldable pub undo_recording :
      {A B O : Type 0} → SessionClass G S A B O → SessionClass G S A B O → SessionClass G S A B O
  undo_recording originals cls = record cls { request = originals.request; send = originals.send }

  -- A `send` of its own leaves `_CALLER` as it was where the method that it wraps does, and that method
  -- runs with a caller recorded.
  pub send-current :
      {B O : Type 0} (proxies_of : B → Option G) (original : Method G S B O) (session : Session G)
      (args : B) (c : Context G S)
      → ((c' : Context G S) → (original session args c').1.current ≡ c'.current)
      → (send proxies_of original session args c).1.current ≡ c.current
  unfolding send with_caller
  send-current proxies_of original session args c keeps = elim (Option-cases c.current) [
    | inr (found, e) ↦ rw (e, send) (keeps c ∙ e)
    | inl e ↦ rw (e, send) e
  ]
