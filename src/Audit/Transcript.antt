-- ===== src/Audit/Transcript.antt =====
-- internal/audit/resource.go: outputTranscript, the most recent output of a constrained command. The
-- limit is a size that fits an int; a limit of 0 stands for every limit that is not positive.
pub mod Tail
use prolewatch.Prelude.{
  ℕ, ◌+◌, ◌-◌, ◌*◌, Bool, true, false, List, [], ◌∷◌, ◌++◌, ltb, leb, ◌==◌, ◌&&◌, if◌then◌else◌,
  length, drop, Bytes,
}

pub record Transcript : Type 0 where
  pub buffer : Bytes
  pub limit : ℕ
  pub dropped : Bool

abbrev pub new_output_transcript : ℕ → Transcript
new_output_transcript limit = record { buffer = []; limit = limit; dropped = false }

-- `s[len(s)-n:]`.
abbrev pub last_bytes : ℕ → Bytes → Bytes
last_bytes n s = drop (length s - n) s

unfoldable pub observe : Transcript → Bytes → Transcript
observe t value =
    let grown = t.buffer ++ value in
    if length value == 0
    then t
    else if t.limit == 0
    then t
    else if leb t.limit (length value)
    then record t { buffer = last_bytes t.limit value; dropped = true }
    else if leb (length grown) t.limit
    then record t { buffer = grown }
    else if leb (2 * t.limit) (length grown)
    then record t { buffer = last_bytes t.limit grown; dropped = true }
    else record t { buffer = grown; dropped = true }

unfoldable pub transcript_bytes : Transcript → Bytes × Bool
transcript_bytes t =
    if ltb 0 t.limit && ltb t.limit (length t.buffer)
    then (last_bytes t.limit t.buffer, t.dropped)
    else (t.buffer, t.dropped)

unfoldable pub observe_all : Transcript → List Bytes → Transcript
observe_all t [] = t
observe_all t (value ∷ values) = observe_all (observe t value) values
