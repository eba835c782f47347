-- ===== src/Rpc/OutputSink.antt =====
-- crates/queue-runner/src/rpc/output_sink.rs: `OutputSinkImpl`, which pipes the outputs of one build into
-- one run of `nix-store --import`. The mutex makes each call one step. Whether that program starts, how
-- far a write into its pipe gets and how it exits are answers.
pub mod Import
use circus.Common.{
  ℕ, ◌+◌, ◌*◌, Bool, true, false, List, [], ◌∷◌, ◌++◌, Bytes, Option, none, some, Result, ok, err,
  ltb, if◌then◌else◌, length, take,
}
use circus.Rpc.LogSink.{saturating_add, Io, complete, broken}

-- `proto::limits`.
abbrev pub max_nar_chunk_bytes : ℕ
max_nar_chunk_bytes = 4 * 1024 * 1024

abbrev pub max_import_total_bytes : ℕ
max_import_total_bytes = 64 * 1024 * 1024 * 1024

-- `State`: what the child, if there is one, was piped so far; and the inputs of the children that have
-- been given the end of their input.
pub record State : Type 0 where
  pub piped : Option Bytes
  pub closed : Bool
  pub total : ℕ
  pub imports : List Bytes

abbrev pub new : State
new = record { piped = none; closed = false; total = 0; imports = [] }

pub data SinkError : Type 0 where
  chunk_too_large is_closed limit_exceeded spawn_failed write_failed wait_failed import_failed :
      SinkError

pub record Answered : Type 0 where
  pub result : Result {0, 0} SinkError Unit
  pub state : State

abbrev pub refuse : SinkError → State → Answered
refuse e s = record { result = err e; state = s }

-- `write_all` into the pipe of the child.
unfoldable pub pipe : Io → Bytes → Bytes → State → Answered
pipe io chunk before s = elim io [
  | complete ↦ record { result = ok tt; state = record s { piped = some (before ++ chunk) } }
  | broken k ↦ refuse write_failed (record s { piped = some (before ++ take k chunk) })
]

-- Into the child that runs, or into a new one.
unfoldable pub pipe_on : Bool → Io → Bytes → Option Bytes → State → Answered
unfolding pipe
pipe_on spawns io chunk (some before) s = pipe io chunk before s
pipe_on spawns io chunk none s = if spawns then pipe io chunk [] s else refuse spawn_failed s

abbrev pub counted : Bytes → State → State
counted chunk s = record s { total = saturating_add s.total (length chunk) }

-- A chunk that is refused for the limit is counted all the same.
unfoldable pub write : Bool → Io → Bytes → State → Answered
unfolding pipe_on
write spawns io chunk s =
    if ltb max_nar_chunk_bytes (length chunk)
    then refuse chunk_too_large s
    else if s.closed
    then refuse is_closed s
    else if ltb max_import_total_bytes (counted chunk s).total
    then refuse limit_exceeded (counted chunk s)
    else pipe_on spawns io chunk s.piped (counted chunk s)

-- How the child ends: it cannot be waited for, or it exits with success or without.
pub data Exit : Type 0 where
  unwaited : Exit
  exits : Bool → Exit

abbrev exit_result : Exit → Result {0, 0} SinkError Unit
exit_result unwaited = err wait_failed
exit_result (exits success) = if success then ok tt else err import_failed

unfoldable pub close : (Bytes → Exit) → State → Answered
close exit s = elim s.piped [
  | none ↦ record { result = ok tt; state = record s { closed = true } }
  | some bytes ↦ record {
    result = exit_result (exit bytes);
    state = record s { closed = true; piped = none; imports = s.imports ++ (bytes ∷ []) };
  }
]

pub data Call : Type 0 where
  write_call : Bool → Io → Bytes → Call
  close_call : (Bytes → Exit) → Call

unfoldable pub run : List Call → State → State
unfolding write close
run [] s = s
run (write_call spawns io chunk ∷ calls) s = run calls (write spawns io chunk s).state
run (close_call exit ∷ calls) s = run calls (close exit s).state
