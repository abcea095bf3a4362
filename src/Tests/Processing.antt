-- ===== src/Tests/Processing.antt =====
-- A batch from its claim to its publication, on small inputs.
use my_ops.Prelude.{
  ◌≢◌, String, arith, ◌≡◌, ◌⊎◌, refl, ℕ, String, Option, none, some, Result, ok, err, is_space,
  List, [], ◌∷◌,
}
use my_ops.Task.{Error, lease_lost, review}
use my_ops.Store.{Db, read, project_processing, update_task, update_rows, insert_history}
use my_ops.Acquisition.Seal.{
  seal_inputs, seal_batch, entries_of, fingerprint_of, bound_package, add_entry, write_manifest,
}
use my_ops.Content.{
  content_schema_version, untrusted, parser_version, policy_version, Envelope, parse_content,
  failed_content, text_content, line_content, blocks_from, translate, split_lines,
}
use my_ops.Processor.{
  ProcessClaim, claim_processing, claim_batch, pin_all, pin_input, claim_sealed, take_batch,
  put_process, is_done, inputs_of, with_package, check_process, beat_process,
}
use my_ops.Processor.Parse.{
  parse, parse_begin, pin_rows, pin_read, parse_source, or_failed, parse_end, stage,
}
use my_ops.Processor.Publish.{
  result, publish, publish_body, publish_new, publish_again, check_results, same_identity,
  valid_status, overall_status, store_results, set_source, apply_result, join, join_texts,
  manifest_of, publish_rows, publish_stored, write_task, stored_manifest,
}
use my_ops.Processor.Calls.{
  ProcessCall, parse_call, beat_call, Setting, process_call, process_calls,
}
use my_ops.Processor.Sound.{IsSound, publish-IsSound, result-publish}
use my_ops.Processor.Replay.{publish-publish}
use my_ops.Processor.Open.{IsOpen, IsFree, IsGiven, claim_processing-open}
use my_ops.Processor.Stale.{stale_publish-IsLost}
use my_ops.Tests.Samples.{finished, empty_db}
use my_ops.Tests.Acquisition.{batch, page, hashing}

-- The batch of one source of text, whose bytes are pinned at the claim.
abbrev waiting : Db
waiting = record empty_db {
  tasks =
      record {
        id = "t1";
        user_id = "7";
        state = review;
        version = 1;
        payload = record finished { state = review; version = 1 };
      }
      ∷ [];
  batches = batch ∷ [];
  inputs = record page { kind = "txt"; locator = "source/s1" } ∷ [];
}

abbrev setting : Setting
setting = record {
  hashing = hashing;
  files = record {
    read_bytes = λ i. some (b'a' ∷ b'b' ∷ []);
    hash = λ bytes. "ab";
    unavailable = "none";
  };
  parsers = record {
    decode = λ bytes. some bytes;
    complex = λ i bytes. failed_content i "unsupported_parser";
  };
  notion = λ i. none;
  encoder = record {
    of_results = λ es. "results";
    of_result = λ e. e.source_id;
    text_of = λ cs. "ab";
    sha256 = λ t. t;
  };
  manifest_text = λ m. m.status;
}

abbrev first_claim : ProcessClaim
first_claim = record { batch_id = "b1"; worker_id = "w1"; fencing_token = 1; attempt = 1 }

abbrev second_claim : ProcessClaim
second_claim = record { batch_id = "b1"; worker_id = "w2"; fencing_token = 2; attempt = 2 }

-- What the parser makes of the bytes.
abbrev results : List Envelope
results =
    record {
      schema = content_schema_version;
      trust = untrusted;
      parser = parser_version;
      policy = policy_version;
      source_id = "s1";
      origin = "notion";
      sha256 = some "ab";
      byte_length = some 2;
      revision = 1;
      path = "source/s1";
      status = "completed";
      completeness = "complete";
      blocks =
          record {
            text = b'a' ∷ b'b' ∷ [];
            source_id = "s1";
            path = "source/s1";
            line = 1;
            paragraph = 1;
          }
          ∷ [];
      issues = [];
    }
    ∷ []

process_all : Unit {0}
unfolding read project_processing update_task update_rows insert_history seal_inputs seal_batch
    entries_of fingerprint_of bound_package add_entry write_manifest parse_content failed_content
    text_content line_content blocks_from translate split_lines claim_processing claim_batch pin_all
    pin_input claim_sealed take_batch put_process is_done inputs_of with_package check_process
    beat_process parse parse_begin pin_rows pin_read parse_source or_failed parse_end stage publish
    publish_body publish_new publish_again check_results same_identity valid_status overall_status
    store_results set_source apply_result join join_texts manifest_of publish_rows publish_stored
    write_task stored_manifest process_call process_calls is_space
process_all = tt

abbrev claim_at : Db → String → ℕ → Result Error (Option ProcessClaim) × Db
claim_at db worker now = claim_processing hashing setting.files db "b1" worker 60 now

abbrev parse_at : Db → ProcessClaim → ℕ → Result Error (List Envelope) × Db
parse_at db c now = parse setting.files setting.parsers setting.notion setting.encoder db c now now

abbrev publish_at : Db → ProcessClaim → ℕ → Result Error String × Db
publish_at db c now = publish setting.encoder setting.manifest_text db c results now

abbrev claimed_db : Db
claimed_db = (claim_at waiting "w1" 100).1

first_given : (claim_at waiting "w1" 100).0 ≡ ok (some first_claim)
unfolding process_all
first_given = refl

parsed : (parse_at claimed_db first_claim 110).0 ≡ ok results
unfolding process_all
parsed = refl

abbrev parsed_db : Db
parsed_db = (parse_at claimed_db first_claim 110).1

published : (publish_at parsed_db first_claim 120).0 ≡ ok "completed"
unfolding process_all
published = refl

abbrev published_db : Db
published_db = (publish_at parsed_db first_claim 120).1

publish-publish_example : publish_at published_db first_claim 900 ≡ (ok "completed", published_db)
publish-publish_example =
    publish-publish setting.encoder setting.manifest_text parsed_db first_claim results 120 900
      "completed" published

publish-IsSound_example :
    (published_db ≡ parsed_db) ⊎ IsSound setting.encoder parsed_db first_claim results published_db
publish-IsSound_example =
    publish-IsSound setting.encoder setting.manifest_text parsed_db first_claim results 120
      "completed" published

result-publish_example :
    ((published_db ≡ parsed_db) × (result published_db "b1" ≡ ok ("completed", [])))
    ⊎ (result published_db "b1" ≡ ok ("completed", "s1" ∷ []))
unfolding parse publish result claim_processing read
result-publish_example =
    result-publish setting.encoder setting.manifest_text parsed_db first_claim results 120
      "completed" published

abbrev between : List ProcessCall
between = parse_call first_claim 110 110 ∷ []

abbrev expired_db : Db
expired_db = process_calls setting claimed_db between

second_given : (claim_at expired_db "w2" 200).0 ≡ ok (some second_claim)
unfolding process_all
second_given = refl

abbrev after : List ProcessCall
after = beat_call second_claim 60 210 210 ∷ parse_call second_claim 220 220 ∷ []

abbrev late_db : Db
late_db = process_calls setting (claim_at expired_db "w2" 200).1 after

stale_publish-IsLost_example :
    publish_at late_db first_claim 230
    ≡ (err (lease_lost "Fencing token or worker mismatch"), late_db)
stale_publish-IsLost_example =
    stale_publish-IsLost setting waiting "b1" "w1" 60 100 first_claim first_given between "w2" 60
      200 second_claim second_given after results 230

-- The first lease is over.
expired-IsOpen : IsOpen expired_db "b1"
unfolding process_all
expired-IsOpen = record {
  batch = record batch {
    processing_status = "processing";
    acquisition_status = "sealed";
    input_manifest_digest = some "digest";
  };
  task = record finished {
    state = review;
    version = 1;
    processing_barrier = record { batch_id = "b1"; status = "processing" } ∷ [];
  };
  found = refl;
  finalized = refl;
  waiting = refl;
  sealed = refl;
  task_read = refl;
  alive = refl;
}

is_free : IsFree expired_db "b1" 200
unfolding process_all
is_free r found = ground arith

claim_processing-open_example :
    let (answer, db') = claim_at expired_db "w2" 200 in
    (c : ProcessClaim) × (answer ≡ ok (some c)) × IsGiven expired_db "b1" "w2" c db'
claim_processing-open_example =
    claim_processing-open hashing setting.files expired_db "b1" "w2" 60 200 expired-IsOpen named
      (omega arith) (omega arith) is_free
  where
    named : ◌≢◌ {A = String} "w2" ""
    named e = cc
