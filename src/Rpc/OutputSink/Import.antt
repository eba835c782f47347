-- ===== src/Rpc/OutputSink/Import.antt =====
-- crates/queue-runner/src/rpc/output_sink.rs: what is imported for a build.
use circus.Common.{
  ℕ, zero, suc, if◌then◌else◌, ltb, ◌+◌, ◌≤◌, ◌≡◌, refl, ◌⊎◌, inl, inr, Bool, true, false, List, [],
  ◌∷◌, Bytes, Option, none, some, length, length-append, take, arith, All, Option-cases,
}
use circus.Rpc.LogSink.{Io, complete, broken, saturating_add}
use circus.Rpc.OutputSink.{
  counted, pipe_on, refuse, chunk_too_large, is_closed, limit_exceeded, max_nar_chunk_bytes,
  Answered, State, new, max_import_total_bytes, pipe, write, Exit, close, Call, write_call,
  close_call, run,
}

abbrev pub piped_bytes : Option Bytes → ℕ
piped_bytes none = 0
piped_bytes (some bytes) = length bytes

abbrev pub IsSmall : Bytes → Type 0
IsSmall bytes = length bytes ≤ max_import_total_bytes

-- Nothing is imported before the end of the input, and what is piped was counted.
record IsSound (s : State) : Type 0 where
  counted : piped_bytes s.piped ≤ s.total
  small : piped_bytes s.piped ≤ max_import_total_bytes
  once : length s.imports ≤ 1
  open_first : (s.closed ≡ true) ⊎ (s.imports ≡ [])
  shut : (s.closed ≡ false) ⊎ (s.piped ≡ none)
  all_small : All IsSmall s.imports

length-take_le : (k : ℕ) (bytes : Bytes) → length (take k bytes) ≤ length bytes
length-take_le zero bytes = omega arith
length-take_le (suc k) [] = omega arith
length-take_le (suc k) (b ∷ bytes) = ground (arith, length-take_le k bytes)

pipe-IsSound :
    (io : Io) (chunk before : Bytes) (s : State)
    → length before + length chunk ≤ s.total
    → s.total ≤ max_import_total_bytes
    → s.closed ≡ false
    → s.imports ≡ []
    → IsSound (pipe io chunk before s).state
unfolding pipe
pipe-IsSound complete chunk before s le small c i = record {
  counted = omega (arith, le, length-append before chunk);
  small = omega (arith, le, small, length-append before chunk);
  once = ground (arith, i);
  open_first = inr i;
  shut = inl c;
  all_small = ground (arith, i);
}
pipe-IsSound (broken k) chunk before s le small c i = record {
  counted = omega (arith, le, length-take_le k chunk, length-append before (take k chunk));
  small = omega (arith, le, small, length-take_le k chunk, length-append before (take k chunk));
  once = ground (arith, i);
  open_first = inr i;
  shut = inl c;
  all_small = ground (arith, i);
}

add_counts :
    (total len : ℕ)
    → saturating_add total len ≤ max_import_total_bytes
    → saturating_add total len ≡ total + len
add_counts total len h = ground arith

counted-IsSound : (chunk : Bytes) (s : State) → IsSound s → IsSound (counted chunk s)
counted-IsSound chunk s h = record {
  counted = ground (arith, h.counted, h.small);
  small = h.small;
  once = h.once;
  open_first = h.open_first;
  shut = h.shut;
  all_small = h.all_small;
}

if-IsSound :
    (b : Bool) (x y : Answered)
    → IsSound x.state
    → (b ≡ false → IsSound y.state)
    → IsSound (if b then x else y).state
if-IsSound true x y h k = h
if-IsSound false x y h k = k refl

pipe_on-IsSound :
    (spawns : Bool) (io : Io) (chunk : Bytes) (o : Option Bytes) (s : State)
    → IsSound s
    → piped_bytes o + length chunk ≤ s.total
    → s.total ≤ max_import_total_bytes
    → s.closed ≡ false
    → s.imports ≡ []
    → IsSound (pipe_on spawns io chunk o s).state
unfolding pipe_on
pipe_on-IsSound spawns io chunk (some before) s h le small c i =
    pipe-IsSound io chunk before s le small c i
pipe_on-IsSound true io chunk none s h le small c i = pipe-IsSound io chunk [] s le small c i
pipe_on-IsSound false io chunk none s h le small c i = h

write-IsSound :
    (spawns : Bool) (io : Io) (chunk : Bytes) (s : State)
    → IsSound s
    → IsSound (write spawns io chunk s).state
unfolding write
write-IsSound spawns io chunk s h =
    if-IsSound (ltb max_nar_chunk_bytes (length chunk)) (refuse chunk_too_large s) _ h λ _.
      if-IsSound s.closed (refuse is_closed s) _ h λ c.
        if-IsSound (ltb max_import_total_bytes (counted chunk s).total)
          (refuse limit_exceeded (counted chunk s)) _ (counted-IsSound chunk s h)
          λ l.
            let small : saturating_add s.total (length chunk) ≤ max_import_total_bytes =
              ground (arith, l) in
            pipe_on-IsSound spawns io chunk s.piped (counted chunk s) (counted-IsSound chunk s h)
              (omega (arith, h.counted, add_counts s.total (length chunk) small)) small c
              (ground (arith, c, h.open_first))

close-IsSound : (exit : Bytes → Exit) (s : State) → IsSound s → IsSound (close exit s).state
unfolding close
close-IsSound exit s h = elim (Option-cases s.piped) [
  | inl n ↦ record {
    counted = ground (arith, n);
    small = ground (arith, n);
    once = ground (arith, n, h.once);
    open_first = ground (arith, n);
    shut = ground (arith, n);
    all_small = ground (arith, n, h.all_small);
  }
  | inr (bytes, e) ↦
      let none_yet : s.imports ≡ [] = ground (arith, e, h.open_first, h.shut) in
      record {
        counted = ground (arith, e);
        small = ground (arith, e);
        once = ground (arith, e, none_yet);
        open_first = ground (arith, e);
        shut = ground (arith, e);
        all_small = ground (arith, e, none_yet, h.small);
      }
]

run-IsSound : (calls : List Call) (s : State) → IsSound s → IsSound (run calls s)
unfolding run
run-IsSound [] s h = h
run-IsSound (write_call spawns io chunk ∷ calls) s h =
    run-IsSound calls (write spawns io chunk s).state (write-IsSound spawns io chunk s h)
run-IsSound (close_call exit ∷ calls) s h =
    run-IsSound calls (close exit s).state (close-IsSound exit s h)

-- Whatever calls an agent makes, at most one input is imported for a build, none of more than
-- `MAX_IMPORT_TOTAL_BYTES`, and what a child that still runs was piped keeps to that limit too.
pub imports_bounded :
    (calls : List Call)
    → (length (run calls new).imports ≤ 1)
      × All IsSmall (run calls new).imports
      × (piped_bytes (run calls new).piped ≤ max_import_total_bytes)
imports_bounded calls =
    let h = run-IsSound calls new (record {
      counted = omega arith;
      small = omega arith;
      once = omega arith;
      open_first = inr refl;
      shut = inl refl;
      all_small = tt;
    }) in
    (h.once, h.all_small, h.small)
