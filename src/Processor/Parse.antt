-- ===== src/Processor/Parse.antt =====
-- processor.py: `parse`.
use my_ops.Prelude.{
  ℕ, ◌++◌, String, Bool, true, false, ◌||◌, Option, none, some, List, [], ◌∷◌, map, Result, ok, err,
  ◌>>=◌, any, update_where, ◌==◌, nat_eq, string_eq, option_eq, if◌then◌else◌,
}
use my_ops.Task.{Error}
use my_ops.Store.{Db, SourceInput, Staging, transact}
use my_ops.Acquisition.{input_at}
use my_ops.Content.{Envelope, Parsers, parse_content, failed_content}
use my_ops.Processor.{
  ProcessClaim, inputs_of, Files, is_unpinned, pin_bytes, set_processing, check_process,
  with_process,
}

-- The pin of `parse`: what cannot be read stays as it is.
unfoldable pub pin_read : Files → Option (List ℕ) → SourceInput → SourceInput
pin_read files none i = i
pin_read files (some bytes) i = pin_bytes files bytes i

abbrev pub pin_source : Files → SourceInput → SourceInput
pin_source files s = if is_unpinned s then pin_read files (files.read_bytes s) s else s

unfoldable pub pin_rows : Files → String → List SourceInput → List SourceInput → List SourceInput
unfolding pin_read
pin_rows files bid [] inputs = inputs
pin_rows files bid (s ∷ ss) inputs = pin_rows files bid ss (
    if is_unpinned s
    then update_where (input_at bid s.source_id) (pin_read files (files.read_bytes s)) inputs
    else inputs)

-- The first transaction of `parse`: the inputs that it found, pinned.
unfoldable pub parse_begin : Files → Db → ProcessClaim → ℕ → Result Error (List SourceInput × Db)
unfolding check_process inputs_of pin_rows
parse_begin files db c now = do
  found ← check_process db c false now
  ok (
    map (pin_source files) (inputs_of db c.batch_id),
    set_processing c.batch_id "processing" (
        with_process
          (record db { inputs = pin_rows files c.batch_id (inputs_of db c.batch_id) db.inputs })
          c.batch_id (λ r. record r { status = "processing" })),
  )

-- The parsing of packages of Notion, `OfflineAcquisition.parse`; `none` is an exception.
abbrev pub NotionParser : Type 0
NotionParser = SourceInput → Option Envelope

unfoldable pub or_failed : SourceInput → Option Envelope → Envelope
unfolding failed_content
or_failed i none = failed_content i "input_verification_failed"
or_failed i (some e) = e

abbrev pub read_content : Parsers → SourceInput → Option (List ℕ) → Option Envelope
read_content parsers i none = none
read_content parsers i (some bytes) = some (parse_content parsers i bytes)

abbrev pub is_missing {ℓ} : {A : Type ℓ} → Option A → Bool
is_missing none = true
is_missing (some a) = false

unfoldable pub parse_source : Files → Parsers → NotionParser → SourceInput → Envelope
unfolding or_failed parse_content
parse_source files parsers notion i = or_failed i (
    if i.kind == "notion"
    then notion i
    else if is_missing i.sha256 || is_missing i.byte_length
    then none
    else read_content parsers i (files.read_bytes i))

-- JSON texts of results and manifests, and their digest; the text of code points.
pub record Encoder : Type 0 where
  pub of_results : List Envelope → String
  pub of_result : Envelope → String
  pub text_of : List ℕ → String
  pub sha256 : String → String

unfoldable pub stage : ProcessClaim → String → List Staging → List Staging
stage c payload staging =
    if any (λ (s : Staging). s.batch_id == c.batch_id) staging
    then update_where (λ s. s.batch_id == c.batch_id)
        (λ s. record s { fencing_token = c.fencing_token; payload = payload }) staging
    else staging
      ++ record { batch_id = c.batch_id; fencing_token = c.fencing_token; payload = payload } ∷ []

-- The last transaction of `parse`.
unfoldable pub parse_end :
    Encoder → Db → ProcessClaim → List Envelope → ℕ → Result Error (List Envelope × Db)
unfolding check_process stage
parse_end enc db c results now = do
  found ← check_process db c false now
  ok (results, record db { staging = stage c (enc.of_results results) db.staging })

-- `parse`: what the first transaction did stays when the last one raises.
unfoldable pub parse :
    Files
    → Parsers
    → NotionParser
    → Encoder
    → Db
    → ProcessClaim
    → ℕ
    → ℕ
    → Result Error (List Envelope) × Db
unfolding parse_begin parse_source parse_end
parse files parsers notion enc db c now now' =
    let begun = transact db (parse_begin files db c now) in
    elim (begun.0) [
      | err e ↦ (err e, begun.1)
      | ok inputs ↦
          transact begun.1
            (parse_end enc begun.1 c (map (parse_source files parsers notion) inputs) now')
    ]
