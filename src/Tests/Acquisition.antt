-- ===== src/Tests/Acquisition.antt =====
-- Leases on sources, the sealing of a batch and its contents, on small inputs.
use my_ops.Prelude.{
  contains, all, is_space, map, nat_eq, ◌≡◌, ◌⊎◌, refl, arith, ℕ, false, Option, none, some, ok,
  err, List, [], ◌∷◌,
}
use my_ops.Task.{lease_lost, new_task}
use my_ops.Storage.{safe_name}
use my_ops.Store.{Db, Batch, SourceInput, create, create_rows, read}
use my_ops.Acquisition.{
  FetchClaim, claim, claim_body, joined, is_closed, task_cancelled, take, put_run, is_taken,
  transition_run, update_run, check_claim, run_holds, allowed_from,
}
use my_ops.Acquisition.Calls.{FetchCall, transition_call, commit_call, serve_all, serve}
use my_ops.Acquisition.Stale.{stale_claim-IsLost}
use my_ops.Acquisition.Seal.{
  Hashing, Package, seal_inputs, seal_batch, entries_of, fingerprint_of, add_entry, write_manifest,
  sealed_as, used_bytes, commit_staged,
}
use my_ops.Acquisition.Sealed.{
  IsSealing, IsWithinLimit, seal_inputs-IsSealing, commit_staged-IsWithinLimit,
}
use my_ops.Content.{text_content, newline, return}
use my_ops.Content.Ends.{written, windows, text_content-written}
use my_ops.Content.Lines.{IsParsed, IsFailed, IsNumbered, block_text, text_content-IsParsed}
use my_ops.Tests.Samples.{empty_db}

abbrev pub batch : Batch
batch = record {
  id = "b1";
  task_id = "t1";
  status = "finalized";
  source_ids = "s1" ∷ [];
  finalized_version = some 1;
  processing_status = "queued";
  acquisition_status = "pending";
  input_manifest_digest = none;
}

abbrev pub page : SourceInput
page = record {
  batch_id = "b1";
  source_id = "s1";
  task_id = "t1";
  locator = "0f";
  kind = "notion";
  origin = "notion";
  sha256 = none;
  byte_length = none;
  revision = 1;
}

-- The tables of a finalized batch with one source of Notion.
abbrev pub open_db : Db
open_db = record (create empty_db "t1" "7").1 { batches = batch ∷ []; inputs = page ∷ [] }

acquire_all : Unit {0}
unfolding create create_rows read safe_name new_task claim claim_body joined is_closed
    task_cancelled take put_run is_taken serve_all serve transition_run update_run check_claim
    run_holds allowed_from
acquire_all = tt

abbrev first_claim : FetchClaim
first_claim = record {
  batch_id = "b1";
  source_id = "s1";
  revision = 1;
  worker_id = "w1";
  attempt = 1;
  fencing_token = 1;
}

abbrev second_claim : FetchClaim
second_claim = record first_claim { worker_id = "w2"; attempt = 2; fencing_token = 2 }

first_given : (claim false open_db "b1" "s1" "w1" 60 100 100).0 ≡ ok (some first_claim)
unfolding acquire_all
first_given = refl

abbrev pub hashing : Hashing
hashing = record { of_entries = λ es. "digest"; lower = λ cs. cs }

abbrev package_of : Package
package_of = record {
  package_id = "p1";
  task_id = "t1";
  batch_id = "b1";
  source_id = "s1";
  revision = 1;
  root_id = "0f";
  content_fingerprint = "cc";
  package_digest = "dd";
  outcome = "completed";
  size = 4096;
}

abbrev fetch_first : List FetchCall
fetch_first = transition_call first_claim "fetching" 0 110 110 ∷ []

abbrev expired_db : Db
expired_db = serve_all hashing false (claim false open_db "b1" "s1" "w1" 60 100 100).1 fetch_first

-- The second worker fetches and commits the page.
abbrev second_fetch : List FetchCall
second_fetch =
    transition_call second_claim "fetching" 0 210 210 ∷ commit_call second_claim package_of 215 ∷ []

second_given : (claim false expired_db "b1" "s1" "w2" 60 200 200).0 ≡ ok (some second_claim)
unfolding acquire_all
second_given = refl

stale_claim-IsLost_example :
    check_claim
      (serve_all hashing false (claim false expired_db "b1" "s1" "w2" 60 200 200).1 second_fetch)
      first_claim
      ("fetching" ∷ [])
      220
    ≡ err (lease_lost "Acquisition lease lost")
stale_claim-IsLost_example =
    stale_claim-IsLost hashing false open_db "b1" "s1" "w1" 60 100 100 first_claim first_given
      fetch_first "w2" 60 200 200 second_claim second_given second_fetch ("fetching" ∷ []) 220

-- A source of text, which is pinned.
abbrev text_input : SourceInput
text_input = record page { kind = "txt"; sha256 = some "aa"; byte_length = some 2 }

abbrev text_db : Db
text_db = record open_db { inputs = text_input ∷ [] }

abbrev sealed_db : Db
sealed_db = record text_db {
  batches = sealed_as "digest" batch ∷ [];
  input_manifests =
      record {
        batch_id = "b1";
        digest = "digest";
        task_id = "t1";
        sources = record { source_id = "s1"; revision = 1; input_fingerprint = "aa" } ∷ [];
      }
      ∷ [];
}

text_sealed : seal_inputs hashing text_db "b1" ≡ ok sealed_db
unfolding seal_inputs seal_batch entries_of fingerprint_of add_entry write_manifest create
    create_rows
text_sealed = refl

seal_inputs-IsSealing_example : (sealed_db ≡ text_db) ⊎ IsSealing hashing text_db "b1" sealed_db
seal_inputs-IsSealing_example = seal_inputs-IsSealing hashing text_db "b1" sealed_db text_sealed

open-IsWithinLimit : IsWithinLimit (serve_all hashing false expired_db [])
unfolding IsWithinLimit acquire_all used_bytes
open-IsWithinLimit bid = omega arith

commit_staged-IsWithinLimit_example :
    IsWithinLimit
      (commit_staged hashing (serve_all hashing false expired_db []) first_claim package_of 120).1
commit_staged-IsWithinLimit_example =
    commit_staged-IsWithinLimit hashing (serve_all hashing false expired_db []) first_claim
      package_of 120 open-IsWithinLimit

-- "a", an empty line, and "b"
abbrev lines : List (List ℕ)
lines = (b'a' ∷ []) ∷ [] ∷ (b'b' ∷ []) ∷ []

no_nul : contains (written (return ∷ newline ∷ []) lines) 0 ≡ false
unfolding written
no_nul = refl

is_printed : all is_space (written (return ∷ newline ∷ []) lines) ≡ false
unfolding written is_space
is_printed = refl

text_content-written_example :
    let e = text_content text_input (some (written (return ∷ newline ∷ []) lines)) in
    (e.status ≡ "completed")
    × (map block_text e.blocks ≡ lines)
    × IsNumbered 1 e.blocks
    × (e.issues ≡ [])
text_content-written_example =
    text_content-written text_input (return ∷ newline ∷ []) lines windows
      ((refl, refl), ((refl, refl), ((refl, refl), tt))) (omega arith) no_nul is_printed

abbrev two_lines : Option (List ℕ)
two_lines = some (b'a' ∷ 13 ∷ 10 ∷ b'b' ∷ [])

text_content-IsParsed_example :
    let e = text_content text_input two_lines in
    IsFailed e
    ⊎ ((text : List ℕ) × (two_lines ≡ some text)
        × (e.status ≡ "completed")
        × IsParsed text_input text e)
text_content-IsParsed_example = text_content-IsParsed text_input two_lines
