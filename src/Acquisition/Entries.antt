-- ===== src/Acquisition/Entries.antt =====
-- acquisition.py, `seal_inputs`: the entries of a manifest and the inputs they stand for.
use my_ops.Prelude.{
  ◌≡◌, ◌≢◌, ==_refl, refl, sym, subst, ap, String, true, false, ◌&&◌, ◌⊎◌, inl, inr, Option, none,
  some, List, [], ◌∷◌, map, Memᴰ, All, Result, ok, err, ◌>>=◌, Bool-cases, >>=-eq-ok, ok-injective,
  first, first-Mem, ◌==◌, string_eq, nat_eq, list_eq, ==→eq,
}
use my_ops.Task.{Error}
use my_ops.Store.{Db, SourceInput, SourcePackage, ManifestEntry}
use my_ops.Acquisition.{input_at, present}
use my_ops.Acquisition.Tokens.{and-eq-true}
use my_ops.Acquisition.Seal.{
  bound_package, package_fingerprint, fingerprint_of, add_entry, if_known, entries_of,
}

-- What stands for the bytes of an input: for a source of Notion the fingerprint of its package, of
-- this batch and revision; for others the digest of its own bytes.
abbrev pub IsPrint : Db → String → SourceInput → String → Type 0
IsPrint db bid i print =
    ((i.kind ≡ "notion")
      × ((p : SourcePackage) × Memᴰ p db.packages
          × (p.batch_id ≡ bid)
          × (p.source_id ≡ i.source_id)
          × (p.revision ≡ i.revision)
          × (p.content_fingerprint ≡ print)))
    ⊎ ((i.kind ≢ "notion") × (i.sha256 ≡ some print))

-- An entry stands for an input of the batch, with what stands for its bytes.
pub record IsEntry (db : Db) (bid : String) (e : ManifestEntry) : Type 0 where
  pub input : SourceInput
  pub stored : Memᴰ input db.inputs
  pub batch : input.batch_id ≡ bid
  pub source : input.source_id ≡ e.source_id
  pub revision : input.revision ≡ e.revision
  pub print : IsPrint db bid input e.input_fingerprint

packaged :
    (db : Db) (bid : String) (i : SourceInput) (o : Option SourcePackage) (print : String)
    → bound_package db bid i ≡ o
    → package_fingerprint o ≡ some print
    → (p : SourcePackage) × Memᴰ p db.packages
      × (p.batch_id ≡ bid)
      × (p.source_id ≡ i.source_id)
      × (p.revision ≡ i.revision)
      × (p.content_fingerprint ≡ print)
unfolding bound_package
packaged db bid i none print found known = cc
packaged db bid i (some p) print found known =
    let (m, own) =
      first-Mem
        (λ (q : SourcePackage).
          q.batch_id == bid && (q.source_id == i.source_id && q.revision == i.revision))
        db.packages p found in
    let (b, rest) = and-eq-true (p.batch_id == bid) _ own in
    let (s, r) = and-eq-true (p.source_id == i.source_id) _ rest in
    (
      p,
      m,
      ==→eq p.batch_id bid b,
      ==→eq p.source_id i.source_id s,
      ==→eq p.revision i.revision r,
      cc,
    )

fingerprint_of-IsPrint :
    (db : Db) (bid : String) (i : SourceInput) (print : String)
    → fingerprint_of db bid i ≡ some print
    → IsPrint db bid i print
unfolding fingerprint_of
fingerprint_of-IsPrint db bid i print known = elim (Bool-cases (i.kind == "notion")) [
  | inl e ↦ inl (
    ==→eq i.kind "notion" e,
    packaged db bid i (bound_package db bid i) print refl (rw (e, fingerprint_of) at known),
  )
  | inr e ↦ inr (λ same. not_notion same e, rw (e, fingerprint_of) at known)
]
  where
    wrong :
        ◌==◌ {A = String} "notion" "notion" ≡ true → ◌==◌ {A = String} "notion" "notion" ≡ false → ⊥
    wrong a b = cc

    not_notion : i.kind ≡ "notion" → (i.kind == "notion") ≡ false → ⊥
    not_notion same e = let g = ==_refl i.kind in wrong (rw same at g) (rw same at e)

abbrev pub entry_source : ManifestEntry → String
entry_source e = e.source_id

-- Entries that belong to the identifiers, in their order.
pub record AreEntries (db : Db) (bid : String) (ids : List String) (entries : List ManifestEntry)
    : Type 0 where
  pub sources : map entry_source entries ≡ ids
  pub each : All (IsEntry db bid) entries

present-eq-ok {ℓ} : {A : Type ℓ} (o : Option A) (a : A) → present o ≡ ok a → o ≡ some a
present-eq-ok none a h = cc
present-eq-ok (some b) a h = ap some (ok-injective h)

known-eq-ok :
    (o : Option String) (i : SourceInput) (rest : Result Error (Option (List ManifestEntry)))
    (entries : List ManifestEntry)
    → if_known o (rest >>= (λ r. ok (add_entry i o r))) ≡ ok (some entries)
    → (print : String) × (tail : List ManifestEntry) × (o ≡ some print)
      × (rest ≡ ok (some tail))
      × (entries
          ≡ record { source_id = i.source_id; revision = i.revision; input_fingerprint = print }
            ∷ tail)
unfolding add_entry
known-eq-ok none i rest entries h = cc
known-eq-ok (some print) i (err e) entries h = cc
known-eq-ok (some print) i (ok none) entries h = cc
known-eq-ok (some print) i (ok (some tail)) entries h =
    (print, tail, refl, refl, cc (ok-injective h))

pub entries_of-AreEntries :
    (db : Db) (bid : String) (ids : List String) (entries : List ManifestEntry)
    → entries_of db bid ids ≡ ok (some entries)
    → AreEntries db bid ids entries
unfolding entries_of
entries_of-AreEntries db bid [] entries h =
    let e : some [] ≡ some entries = ok-injective h in
    let same : [] ≡ entries = cc in
    subst (AreEntries db bid []) same (record { sources = refl; each = tt })
entries_of-AreEntries db bid (sid ∷ ids) entries h =
    let (i, found, h1) = >>=-eq-ok (present (first (input_at bid sid) db.inputs)) _ h in
    let (m, own) = first-Mem (input_at bid sid) db.inputs i (present-eq-ok _ i found) in
    let (b, s) = and-eq-true (i.batch_id == bid) (i.source_id == sid) own in
    let (print, tail, known, rest, e) =
      known-eq-ok (fingerprint_of db bid i) i (entries_of db bid ids) entries h1 in
    let ih = entries_of-AreEntries db bid ids tail rest in
    subst (AreEntries db bid (sid ∷ ids)) (sym e) (record {
      sources = rw (==→eq i.source_id sid s, ih.sources);
      each = (
        record {
          input = i;
          stored = m;
          batch = ==→eq i.batch_id bid b;
          source = refl;
          revision = refl;
          print = fingerprint_of-IsPrint db bid i print known;
        },
        ih.each,
      );
    })
