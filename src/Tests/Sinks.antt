-- ===== src/Tests/Sinks.antt =====
-- Tests of the log sink, of the claim of an evaluation and of the texts that reach Nix.
use circus.Common.{
  ℕ, ◌≡◌, ◌↔◌, ◌≤◌, ◌<◌, refl, Bool, true, false, List, [], ◌∷◌, ◌++◌, Bytes, codes, ok, arith,
  length,
}
use circus.Models.EvaluationStatus.{EvaluationStatus, pending, failed}
use circus.Rpc.LogSink.{Call, write_call, close_call, run, new, FileAnswers, complete}
use circus.Rpc.LogSink.Transcript.{transcript, log_is_transcript}
use circus.Evaluator.Claim
use circus.Evaluator.Claim.{Row, begin, claims, advance, given, has_returned}
use circus.Evaluator.Claim.Exclusive.{claim_exclusive}
use circus.Nix.StorePath
use circus.Nix.StorePath.{slash, trim_end_slashes, dots}
use circus.Nix.StorePath.Valid.{parse_iff_valid}

abbrev sound_file : FileAnswers
sound_file = record { opens = true; chunk = complete; newline = complete }

abbrev two_lines : List Call
two_lines =
    write_call sound_file (codes "ab") ∷ write_call sound_file (codes "toolong") ∷ close_call ∷ []

log_is_transcript_example :
    ((run 8 two_lines new).contents ≡ transcript 8 two_lines new)
    × (length (run 8 two_lines new).contents ≡ (run 8 two_lines new).bytes_written)
    × (length (run 8 two_lines new).contents ≤ 8)
log_is_transcript_example =
    log_is_transcript 8 two_lines (omega arith) (refl, refl, (refl, refl, tt))

abbrev failed_row : Row
failed_row = record { status = failed; restartable = true; builds = 3 }

-- Two evaluators read that the evaluation failed, one that it is pending.
abbrev readers : List EvaluationStatus
readers = failed ∷ failed ∷ pending ∷ []

abbrev interleaved : List (ℕ × Bool)
interleaved = (0, false) ∷ (2, false) ∷ (1, false) ∷ (0, false) ∷ (1, true) ∷ []

claim_exclusive_example :
    claims (Claim.run interleaved (record { calls = begin readers; row = failed_row })).calls ≤ 1
claim_exclusive_example =
    claim_exclusive readers failed_row interleaved
      ((λ e. ground (arith, e)), ((λ e. ground (arith, e)), ((λ e. ground (arith, e)), tt)))

parse_iff_valid_example :
    (StorePath.parse (codes "/nix/a") (codes "/nix/") ≡ ok (codes "/nix/a")) ↔ (
      (codes "/nix/a" ≡ codes "/nix/a")
      × ((rest : Bytes) × (codes "/nix/a"
            ≡ (trim_end_slashes (codes "/nix/") ++ (slash ∷ [])) ++ rest))
      × (¬ ((a b : Bytes) × (codes "/nix/a" ≡ a ++ (dots ++ b))))
      × (length (codes "/nix/a") < 512))
parse_iff_valid_example = parse_iff_valid (codes "/nix/a") (codes "/nix/") (codes "/nix/a")
