-- ===== src/Rpc/LogSink.antt =====
-- crates/queue-runner/src/rpc/log_sink.rs: `LogSinkImpl`, which appends the log of one build to its
-- file, up to a limit. The mutex makes each call one step. Whether the file can be opened, and how far
-- a write gets, is an argument of the call.
pub mod Transcript
use circus.Common.{
  ℕ, ◌+◌, ◌-◌, ◌*◌, ◌^◌, ◌||◌, Bool, true, false, not, List, [], ◌∷◌, ◌++◌, Bytes, Result, ok, err,
  ltb, if◌then◌else◌, length, min, take,
}

-- `proto::limits::MAX_LOG_CHUNK_BYTES`.
abbrev pub max_log_chunk_bytes : ℕ
max_log_chunk_bytes = 1024 * 1024

abbrev pub max_u64 : ℕ
max_u64 = 2 ^ 64 - 1

-- `State`, with the contents of the file that is open or was open.
pub record State : Type 0 where
  pub open_file : Bool
  pub bytes_written : ℕ
  pub closed : Bool
  pub contents : Bytes

-- `LogSinkImpl::new`, for a file that holds nothing yet.
abbrev pub new : State
new = record { open_file = false; bytes_written = 0; closed = false; contents = [] }

pub data LogError : Type 0 where
  chunk_too_large is_closed limit_exceeded open_failed write_failed : LogError

-- `write_all`: all of it, or an error after so many bytes.
pub data Io : Type 0 where
  complete : Io
  broken : ℕ → Io

pub record FileAnswers : Type 0 where
  pub opens : Bool
  pub chunk : Io
  pub newline : Io

pub record Written : Type 0 where
  pub result : Result {0, 0} LogError Unit
  pub state : State

abbrev pub saturating_add : ℕ → ℕ → ℕ
saturating_add a b = min (a + b) max_u64

abbrev refuse : LogError → State → Written
refuse e s = record { result = err e; state = s }

abbrev pub newline_byte : ℕ
newline_byte = 10

-- The two calls of `write_all`, the second only if the first succeeds; only both are counted.
unfoldable pub append : FileAnswers → Bytes → State → Written
append io chunk s = elim io.chunk [
  | broken k ↦ refuse write_failed (record s { contents = s.contents ++ take k chunk })
  | complete ↦ elim io.newline [
    | broken k ↦
        refuse write_failed
          (record s { contents = s.contents ++ (chunk ++ take k (newline_byte ∷ [])) })
    | complete ↦ record {
      result = ok tt;
      state = record s {
        contents = s.contents ++ (chunk ++ (newline_byte ∷ []));
        bytes_written = saturating_add s.bytes_written (length chunk + 1);
      };
    }
  ]
]

unfoldable pub write : ℕ → FileAnswers → Bytes → State → Written
write max_bytes io chunk s =
    if ltb max_log_chunk_bytes (length chunk)
    then refuse chunk_too_large s
    else if s.closed
    then refuse is_closed s
    else if ltb max_bytes (saturating_add s.bytes_written (length chunk + 1))
    then refuse limit_exceeded s
    else if s.open_file || io.opens
    then append io chunk (record s { open_file = true })
    else refuse open_failed s

-- The file is flushed, whatever comes of it.
unfoldable pub close : State → State
close s = record s { closed = true; open_file = false }

-- The calls of the agent, in the order in which they take the lock.
pub data Call : Type 0 where
  write_call : FileAnswers → Bytes → Call
  close_call : Call

unfoldable pub run : ℕ → List Call → State → State
run max_bytes [] s = s
run max_bytes (write_call io chunk ∷ calls) s =
    run max_bytes calls (write max_bytes io chunk s).state
run max_bytes (close_call ∷ calls) s = run max_bytes calls (close s)
