-- ===== src/Acquisition/Seal.antt =====
-- tg_testcase/acquisition.py: `seal_inputs`, and the transaction of `_commit_staged` for a store with
-- no protected acquisition. The bytes of artifacts, and the reading of a package, are not modelled.
use my_ops.Prelude.{
  ℕ, zero, suc, ◌+◌, ◌-◌, ◌*◌, ◌++◌, String, Bool, false, not, ◌&&◌, ◌||◌, Option, none, some, List,
  [], ◌∷◌, Result, ok, ◌>>=◌, ◌>>◌, raise_if, any, select, first, update_where, get_by, length, leb,
  codes, ◌==◌, nat_eq, string_eq, list_eq, if◌then◌else◌,
}
use my_ops.Task.{Error, integrity_error}
use my_ops.Store.{
  Db, Batch, FetchRun, SourceInput, SourcePackage, ManifestEntry, InputManifest, transact,
}
use my_ops.Acquisition.{FetchClaim, input_at, batch_id, present, demand, check_claim, with_runs}

-- What the module computes outside the database: the digest of the entries of a manifest, and
-- `str.lower` on code points.
pub record Hashing : Type 0 where
  pub of_entries : List ManifestEntry → String
  pub lower : List ℕ → List ℕ

-- `SELECT content_fingerprint FROM source_packages WHERE ... AND revision=?`
unfoldable pub bound_package : Db → String → SourceInput → Option SourcePackage
bound_package db bid i =
    first (λ p. p.batch_id == bid && (p.source_id == i.source_id && p.revision == i.revision))
      db.packages

abbrev pub package_fingerprint : Option SourcePackage → Option String
package_fingerprint none = none
package_fingerprint (some p) = some p.content_fingerprint

-- The fingerprint of an input, if it is known.
unfoldable pub fingerprint_of : Db → String → SourceInput → Option String
unfolding bound_package
fingerprint_of db bid i =
    if i.kind == "notion" then package_fingerprint (bound_package db bid i) else i.sha256

-- The loop over the identifiers: `none` is its early return.
unfoldable pub add_entry :
    SourceInput → Option String → Option (List ManifestEntry) → Option (List ManifestEntry)
add_entry i none rest = none
add_entry i (some print) none = none
add_entry i (some print) (some entries) =
    some (
      record { source_id = i.source_id; revision = i.revision; input_fingerprint = print }
      ∷ entries)

abbrev pub if_known {ℓ} :
    {A : Type ℓ} → Option String → Result Error (Option A) → Result Error (Option A)
if_known none rest = ok none
if_known (some print) rest = rest

unfoldable pub entries_of : Db → String → List String → Result Error (Option (List ManifestEntry))
unfolding fingerprint_of add_entry
entries_of db bid [] = ok (some [])
entries_of db bid (sid ∷ ids) = do
  i ← present (first (input_at bid sid) db.inputs)
  if_known (fingerprint_of db bid i)
      (entries_of db bid ids >>= (λ rest. ok (add_entry i (fingerprint_of db bid i) rest)))

abbrev pub sealed_as : String → Batch → Batch
sealed_as digest b = record b { acquisition_status = "sealed"; input_manifest_digest = some digest }

-- The two writes, when the manifest is complete.
unfoldable pub write_manifest : Hashing → Db → Batch → Option (List ManifestEntry) → Result Error Db
write_manifest h db b none = ok db
write_manifest h db b (some entries) = do
  raise_if (any (λ (m : InputManifest). m.batch_id == b.id) db.input_manifests)
      (integrity_error "batch_input_manifests")
  ok (record db {
    input_manifests =
        db.input_manifests
        ++ record {
          batch_id = b.id;
          digest = h.of_entries entries;
          task_id = b.task_id;
          sources = entries;
        }
          ∷ [];
    batches = update_where (λ c. c.id == b.id) (sealed_as (h.of_entries entries)) db.batches;
  })

-- a text that counts as true
abbrev pub is_text : Option String → Bool
is_text none = false
is_text (some t) = not (t == "")

unfoldable pub seal_batch : Hashing → Db → Option Batch → Result Error Db
unfolding entries_of write_manifest
seal_batch h db none = ok db
seal_batch h db (some b) =
    if not (b.status == "finalized") || is_text b.input_manifest_digest then ok db else (do
      demand (leb (length b.source_ids) 50) "Batch source limit"
      entries ← entries_of db b.id b.source_ids
      write_manifest h db b entries)

unfoldable pub seal_inputs : Hashing → Db → String → Result Error Db
unfolding seal_batch
seal_inputs h db bid = seal_batch h db (get_by batch_id bid db.batches)

-- A package that was read and checked: what the commit uses of it. `size` is the number of bytes of
-- its canonical text and of its artifacts.
pub record Package : Type 0 where
  pub package_id : String
  pub task_id : String
  pub batch_id : String
  pub source_id : String
  pub revision : ℕ
  pub root_id : String
  pub content_fingerprint : String
  pub package_digest : String
  pub outcome : String
  pub size : ℕ

abbrev pub without_dashes : List ℕ → List ℕ
without_dashes cs = select (λ c. not (c == b'-')) cs

abbrev pub drop : ℕ → List ℕ → List ℕ
drop zero cs = cs
drop (suc n) [] = []
drop (suc n) (c ∷ cs) = drop n cs

-- `cs[-n:]`
abbrev pub last : ℕ → List ℕ → List ℕ
last n cs = drop (length cs - n) cs

-- `reference_id`
unfoldable pub reference_id : Hashing → String → List ℕ
reference_id h reference = h.lower (last 32 (without_dashes (codes reference)))

-- `coalesce(sum(byte_length), 0)` of the packages of a batch
unfoldable pub used_bytes : String → List SourcePackage → ℕ
used_bytes bid [] = 0
used_bytes bid (p ∷ packages) =
    (if p.batch_id == bid then p.byte_length else 0) + used_bytes bid packages

-- The sources of Notion of a batch, but one, that have no package yet.
unfoldable pub remaining_sources : Db → String → String → ℕ
remaining_sources db bid sid = length (
    select
      (λ i.
        i.batch_id == bid
        && (i.kind == "notion"
            && (not (i.source_id == sid)
                && not (
                    any
                      (λ (p : SourcePackage).
                        p.batch_id == i.batch_id && p.source_id == i.source_id)
                      db.packages))))
      db.inputs)

-- `MAX_BATCH_BYTES`
abbrev pub max_batch_bytes : ℕ
max_batch_bytes = 268435456

abbrev pub same_binding : Package → FetchClaim → SourceInput → Bool
same_binding p c source =
    p.task_id == source.task_id
    && (p.batch_id == c.batch_id && (p.source_id == c.source_id && p.revision == c.revision))

-- The keys of `source_packages`.
unfoldable pub clashes : Package → SourcePackage → Bool
clashes p q =
    q.id == p.package_id
    || ((q.batch_id == p.batch_id && q.source_id == p.source_id)
        || (q.task_id == p.task_id && (q.source_id == p.source_id && q.revision == p.revision)))

unfoldable pub insert_package : Db → Package → Result Error Db
unfolding clashes
insert_package db p = do
  raise_if (any (clashes p) db.packages) (integrity_error "source_packages")
  ok (record db {
    packages =
        db.packages
        ++ record {
          id = p.package_id;
          task_id = p.task_id;
          batch_id = p.batch_id;
          source_id = p.source_id;
          revision = p.revision;
          content_fingerprint = p.content_fingerprint;
          package_digest = p.package_digest;
          byte_length = p.size;
          outcome = p.outcome;
        }
          ∷ [];
  })

abbrev pub seal_run : String → FetchRun → FetchRun
seal_run outcome r = record r { status = "sealed"; outcome = some outcome }

unfoldable pub commit_body : Hashing → Db → FetchClaim → Package → ℕ → Result Error Db
unfolding check_claim reference_id used_bytes remaining_sources insert_package seal_inputs
commit_body h db c p now = do
  source ← check_claim db c ("fetching" ∷ []) now
  demand (same_binding p c source) "Package binding mismatch"
  demand (reference_id h p.root_id == reference_id h source.locator) "Root reference mismatch"
  demand
      (leb
        (used_bytes c.batch_id db.packages
          + p.size
          + remaining_sources db c.batch_id c.source_id * 4096)
        max_batch_bytes)
      "Batch package limit"
  db1 ← insert_package db p
  seal_inputs h (with_runs db1 c (seal_run p.outcome)) c.batch_id

-- `_commit_staged`
unfoldable pub commit_staged :
    Hashing → Db → FetchClaim → Package → ℕ → Result Error (Unit {0}) × Db
unfolding commit_body
commit_staged h db c p now = transact db (commit_body h db c p now >>= (λ db'. ok (tt, db')))
