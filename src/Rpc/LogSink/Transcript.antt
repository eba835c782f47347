-- ===== src/Rpc/LogSink/Transcript.antt =====
-- crates/queue-runner/src/rpc/log_sink.rs: what the log file of a build holds, and how much of it.
use circus.Common.{
  append_nil, append_assoc, ℕ, ◌+◌, ◌≤◌, ◌<◌, ◌≡◌, refl, sym, ap, ◌∙◌, ◌⊎◌, inl, inr, Bool, true,
  false, List, [], ◌∷◌, ◌++◌, Bytes, Result, ok, err, if◌then◌else◌, length, length-append, arith,
}
use circus.Rpc.LogSink.{
  max_u64, saturating_add, State, new, LogError, complete, FileAnswers, newline_byte, append, write,
  close, Call, write_call, close_call, run,
}

abbrev is_ok : Result {0, 0} LogError Unit → Bool
is_ok (ok u) = true
is_ok (err e) = false

abbrev line : Bytes → Bytes
line chunk = chunk ++ (newline_byte ∷ [])

-- The chunks that the sink accepted, by the replies to the agent, each with a newline.
abbrev pub transcript : ℕ → List Call → State → Bytes
transcript max_bytes [] s = []
transcript max_bytes (write_call io chunk ∷ calls) s =
    let w = write max_bytes io chunk s in
    (if is_ok w.result then line chunk else []) ++ transcript max_bytes calls w.state
transcript max_bytes (close_call ∷ calls) s = transcript max_bytes calls (close s)

-- No write is cut short. The file may still fail to open.
abbrev pub Unbroken : List Call → Type 0
Unbroken [] = Unit
Unbroken (write_call io chunk ∷ calls) =
    (io.chunk ≡ complete) × (io.newline ≡ complete) × Unbroken calls
Unbroken (close_call ∷ calls) = Unbroken calls

length-line : (xs chunk : Bytes) → length (xs ++ line chunk) ≡ length xs + (length chunk + 1)
length-line xs chunk =
    omega (arith, length-append xs (line chunk), length-append chunk (newline_byte ∷ []))

module _ (max_bytes : ℕ) where
  append_unbroken :
      (io : FileAnswers) (chunk : Bytes) (s : State)
      → io.chunk ≡ complete
      → io.newline ≡ complete
      → append io chunk s ≡ record {
        result = ok tt;
        state = record s {
          contents = s.contents ++ line chunk;
          bytes_written = saturating_add s.bytes_written (length chunk + 1);
        };
      }
  unfolding append
  append_unbroken io chunk s a b = rw (a, b)

  write_outcome :
      (io : FileAnswers) (chunk : Bytes) (s : State)
      → io.chunk ≡ complete
      → io.newline ≡ complete
      → let w = write max_bytes io chunk s in
        ((is_ok w.result ≡ false)
          × (w.state.contents ≡ s.contents)
          × (w.state.bytes_written ≡ s.bytes_written))
        ⊎ ((is_ok w.result ≡ true)
            × (w.state.contents ≡ s.contents ++ line chunk)
            × (w.state.bytes_written ≡ saturating_add s.bytes_written (length chunk + 1))
            × (saturating_add s.bytes_written (length chunk + 1) ≤ max_bytes))
  unfolding write
  write_outcome io chunk s a b =
      let e = append_unbroken io chunk (record s { open_file = true }) a b in ground (arith, e)

  write_contents :
      (io : FileAnswers) (chunk : Bytes) (s : State)
      → io.chunk ≡ complete
      → io.newline ≡ complete
      → let w = write max_bytes io chunk s in
        w.state.contents ≡ s.contents ++ (if is_ok w.result then line chunk else [])
  write_contents io chunk s a b = elim (write_outcome io chunk s a b) [
    | inl (refused, same, _) ↦ rw refused (same ∙ sym (append_nil s.contents))
    | inr (accepted, more, _, _) ↦ rw accepted more
  ]

  write_counts :
      (io : FileAnswers) (chunk : Bytes) (s : State)
      → max_bytes < max_u64
      → io.chunk ≡ complete
      → io.newline ≡ complete
      → length s.contents ≡ s.bytes_written
      → s.bytes_written ≤ max_bytes
      → let w = write max_bytes io chunk s in
        (length w.state.contents ≡ w.state.bytes_written) × (w.state.bytes_written ≤ max_bytes)
  write_counts io chunk s fits a b e l = elim (write_outcome io chunk s a b) [
    | inl (refused, same, count) ↦ (ap length same ∙ e ∙ sym count, omega (arith, count))
    | inr (accepted, more, count, bound) ↦
        (ap length more ∙ omega (arith, count, length-line s.contents chunk), omega (arith, count))
  ]

  run-transcript :
      (calls : List Call) (s : State)
      → Unbroken calls
      → (run max_bytes calls s).contents ≡ s.contents ++ transcript max_bytes calls s
  unfolding run close
  run-transcript [] s u = sym (append_nil s.contents)
  run-transcript (write_call io chunk ∷ calls) s (a, b, u) =
      let w = write max_bytes io chunk s in
      run-transcript calls w.state u
      ∙ ap (λ t. t ++ transcript max_bytes calls w.state) (write_contents io chunk s a b)
      ∙ append_assoc s.contents _ _
  run-transcript (close_call ∷ calls) s u = run-transcript calls (close s) u

  run_counts :
      (calls : List Call) (s : State)
      → max_bytes < max_u64
      → Unbroken calls
      → length s.contents ≡ s.bytes_written
      → s.bytes_written ≤ max_bytes
      → let r = run max_bytes calls s in
        (length r.contents ≡ r.bytes_written) × (r.bytes_written ≤ max_bytes)
  unfolding run close
  run_counts [] s fits u e l = (e, l)
  run_counts (write_call io chunk ∷ calls) s fits (a, b, u) e l =
      let (e', l') = write_counts io chunk s fits a b e l in
      run_counts calls (write max_bytes io chunk s).state fits u e' l'
  run_counts (close_call ∷ calls) s fits u e l = run_counts calls (close s) fits u e l

  -- In whatever order writes and closes come, as long as no write is cut short, the log file holds
  -- exactly the chunks whose writes were answered with success, each followed by a newline; the
  -- counter is its length; and it never passes `max_bytes`, which lies below the largest `u64`.
  pub log_is_transcript :
      (calls : List Call)
      → max_bytes < max_u64
      → Unbroken calls
      → let s = run max_bytes calls new in
        (s.contents ≡ transcript max_bytes calls new)
        × (length s.contents ≡ s.bytes_written)
        × (length s.contents ≤ max_bytes)
  log_is_transcript calls fits u =
      let (e, l) = run_counts calls new fits u refl (omega arith) in
      (run-transcript calls new u, e, omega (arith, e, l))

  write_closed :
      (io : FileAnswers) (chunk : Bytes) (s : State)
      → s.closed ≡ true
      → ((write max_bytes io chunk s).state ≡ s)
        × (is_ok (write max_bytes io chunk s).result ≡ false)
  unfolding write
  write_closed io chunk s h = ground arith

  -- Once the sink is closed, no call changes anything, whatever the file answers.
  closed_is_final : (calls : List Call) (s : State) → run max_bytes calls (close s) ≡ close s
  unfolding run close
  closed_is_final [] s = refl
  closed_is_final (write_call io chunk ∷ calls) s =
      ap (run max_bytes calls) (write_closed io chunk (close s) refl).0 ∙ closed_is_final calls s
  closed_is_final (close_call ∷ calls) s = closed_is_final calls (close s)
