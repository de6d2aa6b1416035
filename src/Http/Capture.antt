-- ===== src/Http/Capture.antt =====
-- internal/middleware/response_cache.go: captureWriter, which copies what a handler writes, and
-- writeCachedResponse, which writes it again. Gin's ResponseWriter is a parameter.
use text.Mathlib.TextLemmas.{append-nil, append_assoc}
use backend_infra_assessment.Base.{
  ℕ, ◌≡◌, refl, sym, ap, String, Bool, true, false, List, [], ◌∷◌, is_ok, Exec, append,
  if◌then◌else◌,
}

-- What the code uses of gin.ResponseWriter.
pub record ResponseWriter (W : Type 0) : Type 0 where
  -- The number of bytes that went out.
  pub write : String → Exec W String ℕ
  pub write_string : String → Exec W String ℕ
  -- Header().Set and Header().Get
  pub set_header : String → String → W → W
  pub header : W → String → String
  pub write_header : ℕ → W → W
  pub status : W → ℕ

-- captureWriter: a writer and a buffer, which is the second part of its state.
abbrev pub captured : {W : Type 0} → ResponseWriter W → ResponseWriter (W × String)
captured out = record {
  write = λ b s. let (n, w) = out.write b s.0 in (n, (w, append s.1 b));
  write_string = λ b s. let (n, w) = out.write_string b s.0 in (n, (w, append s.1 b));
  set_header = λ k v s. (out.set_header k v s.0, s.1);
  header = λ s k. out.header s.0 k;
  write_header = λ n s. (out.write_header n s.0, s.1);
  status = λ s. out.status s.0;
}

-- What a handler does to its writer.
pub data Output : Type 0 where
  writes : String → Output
  writes_string : String → Output
  sets_header : String → String → Output
  writes_header : ℕ → Output

-- The outputs of a handler, which looks at no result of them: whether all writes succeeded.
unfoldable pub emit : {W : Type 0} → ResponseWriter W → List Output → W → Bool × W
emit out [] w = (true, w)
emit out (writes b ∷ more) w =
    let (r, w') = out.write b w in
    let (all, w'') = emit out more w' in (if is_ok r then all else false, w'')
emit out (writes_string b ∷ more) w =
    let (r, w') = out.write_string b w in
    let (all, w'') = emit out more w' in (if is_ok r then all else false, w'')
emit out (sets_header k v ∷ more) w = emit out more (out.set_header k v w)
emit out (writes_header n ∷ more) w = emit out more (out.write_header n w)

-- The bytes among the outputs.
unfoldable pub bytes_of : List Output → String
bytes_of [] = ""
bytes_of (writes b ∷ more) = append b (bytes_of more)
bytes_of (writes_string b ∷ more) = append b (bytes_of more)
bytes_of (sets_header k v ∷ more) = bytes_of more
bytes_of (writes_header n ∷ more) = bytes_of more

-- The client sees the same with the capture and without, and the buffer holds all bytes written, in
-- order.
pub emit-captured :
    {W : Type 0} (out : ResponseWriter W) (outputs : List Output) (w : W) (buffer : String)
    → emit (captured out) outputs (w, buffer)
      ≡ ((emit out outputs w).0, ((emit out outputs w).1, append buffer (bytes_of outputs)))
unfolding emit bytes_of
emit-captured out [] w buffer = ap (λ s. (true, (w, s))) (sym (append-nil buffer))
emit-captured out (writes b ∷ more) w buffer =
    let w' = (out.write b w).1 in
    rw (emit-captured out more w' (append buffer b), append_assoc buffer b (bytes_of more)) refl
emit-captured out (writes_string b ∷ more) w buffer =
    let w' = (out.write_string b w).1 in
    rw (emit-captured out more w' (append buffer b), append_assoc buffer b (bytes_of more)) refl
emit-captured out (sets_header k v ∷ more) w buffer =
    emit-captured out more (out.set_header k v w) buffer
emit-captured out (writes_header n ∷ more) w buffer =
    emit-captured out more (out.write_header n w) buffer
