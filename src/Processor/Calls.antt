-- ===== src/Processor/Calls.antt =====
-- processor.py: the calls of processors, one after another.
use my_ops.Prelude.{ℕ, String, List, [], ◌∷◌}
use my_ops.Store.{Db}
use my_ops.Acquisition.Seal.{Hashing}
use my_ops.Content.{Envelope, Parsers}
use my_ops.Processor.{ProcessClaim, Files, claim_processing, beat_process}
use my_ops.Processor.Parse.{NotionParser, Encoder, parse}
use my_ops.Processor.Publish.{ManifestOf, publish}

pub data ProcessCall : Type 0 where
  claim_call : (bid worker : String) (lease now : ℕ) → ProcessCall
  beat_call : ProcessClaim → (lease now now' : ℕ) → ProcessCall
  parse_call : ProcessClaim → (now now' : ℕ) → ProcessCall
  publish_call : ProcessClaim → List Envelope → (now : ℕ) → ProcessCall

-- What the processors run with.
pub record Setting : Type 0 where
  pub hashing : Hashing
  pub files : Files
  pub parsers : Parsers
  pub notion : NotionParser
  pub encoder : Encoder
  pub manifest_text : ManifestOf → String

unfoldable pub process_call : Setting → Db → ProcessCall → Db
unfolding claim_processing beat_process parse publish
process_call s db (claim_call bid worker lease now) =
    (claim_processing s.hashing s.files db bid worker lease now).1
process_call s db (beat_call c lease now now') = (beat_process db c lease now now').1
process_call s db (parse_call c now now') =
    (parse s.files s.parsers s.notion s.encoder db c now now').1
process_call s db (publish_call c results now) =
    (publish s.encoder s.manifest_text db c results now).1

unfoldable pub process_calls : Setting → Db → List ProcessCall → Db
unfolding process_call
process_calls s db [] = db
process_calls s db (c ∷ cs) = process_calls s (process_call s db c) cs
