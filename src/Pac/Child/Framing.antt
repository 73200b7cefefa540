-- ===== src/Pac/Child/Framing.antt =====
-- src/proxylib/pac/_child.py: what is read back of what was written.
use proxylib.Prelude.{
  ℕ, ◌/◌, ◌%◌, ◌^◌, ◌≡◌, ◌<◌, refl, ap, some, [], ◌∷◌, ◌++◌, arith, ltb, length, take,
  drop_of_length, Bool-cases, inl, inr,
}
use proxylib.Python.Exec.{Result, ok}
use proxylib.Pac.Child.{Bytes, pack, unpack, Pickle, write_frame, loaded, read_body, read_frame}

unpack-pack :
    (n : ℕ) → n < 2 ^ 32 → unpack (n / 2 ^ 24) (n / 2 ^ 16 % 256) (n / 2 ^ 8 % 256) (n % 256) ≡ n
unfolding unpack
unpack-pack n h = omega (arith, h)

take-append : (xs ys : Bytes) → take (length xs) (xs ++ ys) ≡ xs
take-append [] ys = refl
take-append (x ∷ xs) ys = ap (λ l. x ∷ l) (take-append xs ys)

module _ {M : Type 0} (pickle : Pickle M) where
  read_body-append :
      (body rest : Bytes) (message : M)
      → pickle.loads body ≡ ok message
      → read_body pickle (length body) (body ++ rest) ≡ (ok (some message), rest)
  unfolding read_body loaded
  read_body-append body rest message back =
      rw (read_body, take-append body rest, drop_of_length body rest, back) (ground arith)

  write_frame-ok :
      (message : M) (frame : Bytes)
      → write_frame pickle message ≡ ok frame
      → (length (pickle.dumps message) < 2 ^ 32)
        × (frame
            ≡ length (pickle.dumps message) / 2 ^ 24
              ∷ length (pickle.dumps message) / 2 ^ 16 % 256
              ∷ length (pickle.dumps message) / 2 ^ 8 % 256
              ∷ length (pickle.dumps message) % 256
              ∷ pickle.dumps message)
  unfolding write_frame pack
  write_frame-ok message frame written =
      elim (Bool-cases (ltb (length (pickle.dumps message)) (2 ^ 32))) [
        | inl fits ↦ (ground (arith, fits), same_frame (rw (write_frame, pack, fits) at written))
        | inr long ↦ absurd (ground (arith, long, written))
      ]
    where
      same_frame : {a b : Bytes} → ◌≡◌ {A = Result Bytes} (ok a) (ok b) → b ≡ a
      same_frame h = cc

  -- A frame that was written is read back as its message, and what follows it on the stream is left for
  -- the next reading: where pickling and unpickling a message gives it back, and its pickle is shorter
  -- than 2^32 bytes.
  pub read_frame-write_frame :
      (message : M) (frame rest : Bytes)
      → pickle.loads (pickle.dumps message) ≡ ok message
      → write_frame pickle message ≡ ok frame
      → read_frame pickle (frame ++ rest) ≡ (ok (some message), rest)
  unfolding write_frame read_frame read_body pack
  read_frame-write_frame message frame rest back written =
      let (fits, split) = write_frame-ok message frame written in
      rw (split, read_frame, unpack-pack (length (pickle.dumps message)) fits)
        (read_body-append (pickle.dumps message) rest message back)
