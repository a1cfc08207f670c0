-- ===== src/Primitives/Bounds.antt =====
-- What the checks of src/dger/gen4_primitives.py promise: relative paths, bounded payloads, objects
-- without repeated keys.
use dropbox_governed_executi.Prelude.{
  ℕ, suc, ◌+◌, ◌≤◌, String, ◌≡◌, refl, subst, List, [], ◌∷◌, length, All, arith, none, some, leb,
  leb→le, Bool-cases, inl, inr,
}
use dropbox_governed_executi.Result.{Result, ok, err, Result-cases, ◌>>=◌}
use dropbox_governed_executi.Platform.{Bytes, Python}
use dropbox_governed_executi.Primitives.Files.{
  Entry, absent, link, directory, special, regular, read_regular,
}
use dropbox_governed_executi.Primitives.Payload.{
  max_files, max_file_bytes, max_total_bytes, PosixPath, PayloadEntry, tree, safe_rel, read_payload,
  payload_entry, manifest_loop, manifest_digest, payload_manifest, sort_paths,
}

-- A file that was read is no longer than the limit, and of the length that `fstat` gave.
pub read_regular-eq-ok :
    (mode size limit : ℕ) (content raw : List ℕ) (name : String)
    → read_regular (regular mode size content) name limit ≡ ok raw
    → (raw ≡ content) × (length raw ≡ size) × (size ≤ limit)
unfolding read_regular
read_regular-eq-ok mode size limit content raw name h = ground arith

-- One path adds at most one file, and only while there are fewer than `max_files`.
read_payload_bounds :
    (count : ℕ) (rel : String) (e : Entry) (raw : List ℕ)
    → read_payload count rel e ≡ ok (some raw)
    → (suc count ≤ max_files) × (length raw ≤ max_file_bytes)
unfolding read_payload read_regular
read_payload_bounds count rel absent raw h = cc
read_payload_bounds count rel link raw h = cc
read_payload_bounds count rel directory raw h = cc
read_payload_bounds count rel special raw h = cc
read_payload_bounds count rel (regular mode size content) raw h = ground arith

abbrev pub total_size : List PayloadEntry → ℕ
total_size [] = 0
total_size (e ∷ es) = e.size + total_size es

module _ ⦃py : Python⦄ where
  -- Every file of a manifest is bounded, and stands at an accepted path.
  abbrev pub EntryOk : PayloadEntry → Type 0
  EntryOk e = (e.size ≤ max_file_bytes) × ((p : PosixPath) × (safe_rel e.path ≡ ok p))

  -- What the loop returns from a count and a total.
  pub record Fits (count total : ℕ) (entries : List PayloadEntry) (final : ℕ) : Type 0 where
    pub few : length entries + count ≤ max_files
    pub sum : final ≡ total + total_size entries
    pub bounded : final ≤ max_total_bytes
    pub each : All EntryOk entries

  abbrev ResultFits : ℕ → ℕ → Result (List PayloadEntry × ℕ) → Type 0
  ResultFits count total (ok (entries, final)) = Fits count total entries final
  ResultFits count total (err e) = Unit

  -- One more file in front of what the rest of the loop returns.
  found_file :
      (count total : ℕ) (rel : String) (raw : Bytes) (rest : Result (List PayloadEntry × ℕ))
      → (p : PosixPath) × (safe_rel rel ≡ ok p)
      → length raw ≤ max_file_bytes
      → ResultFits (count + 1) (total + length raw) rest
      → ResultFits count total (rest >>= λ (es, final). ok (payload_entry rel raw ∷ es, final))
  unfolding payload_entry
  found_file count total rel raw (err e) path size f = tt
  found_file count total rel raw (ok (es, final)) path size f = record {
    few = omega (arith, f.few);
    sum = omega (arith, f.sum);
    bounded = f.bounded;
    each = ((size, path), f.each);
  }

  manifest_loop-Fits :
      (count total : ℕ) (l : List (String × Entry))
      → count ≤ max_files
      → total ≤ max_total_bytes
      → ResultFits count total (manifest_loop count total l)
  unfolding manifest_loop
  manifest_loop-Fits count total [] c t = ground arith
  manifest_loop-Fits count total ((rel, e) ∷ l) c t = elim (Result-cases (safe_rel rel)) [
    | inr (x, p) ↦ rw p tt
    | inl (path, p) ↦ elim (Result-cases (read_payload count rel e)) [
      | inr (x, q) ↦ rw (p, q) tt
      | inl (none, q) ↦ rw (p, q) (manifest_loop-Fits count total l c t)
      | inl (some raw, q) ↦
          let b = read_payload_bounds count rel e raw q in
          elim (Bool-cases (leb (total + length raw) max_total_bytes)) [
            | inr no_room ↦ rw (p, q, no_room) tt
            | inl room ↦
                rw (p, q, room)
                  (found_file count total rel raw _ (path, p) b.1
                    (manifest_loop-Fits (count + 1) (total + length raw) l (omega (arith, b.0))
                      (leb→le _ _ room)))
          ]
    ]
  ]

  abbrev ManifestOk : Result (List PayloadEntry × ℕ × String) → Type 0
  ManifestOk (ok (entries, total, digest)) =
      Fits 0 0 entries total × (digest ≡ manifest_digest entries total)
  ManifestOk (err e) = Unit

  payload_manifest-Ok : (l : List (String × Entry)) → ManifestOk (payload_manifest (tree l))
  unfolding payload_manifest
  payload_manifest-Ok l = elim (Result-cases (manifest_loop 0 0 (sort_paths l))) [
    | inr (x, p) ↦ rw p tt
    | inl ((es, final), p) ↦
        rw p (rw p at (manifest_loop-Fits 0 0 (sort_paths l) (omega arith) (omega arith)), refl)
  ]

  -- A payload that is accepted has at most 64 files of at most 256 KiB each, at accepted paths; its
  -- total is the sum of their sizes and at most 2 MiB, and its digest is that of the files and total.
  pub payload_manifest_bounds :
      (l : List (String × Entry)) {entries : List PayloadEntry} {total : ℕ} {digest : String}
      → payload_manifest (tree l) ≡ ok (entries, total, digest)
      → Fits 0 0 entries total × (digest ≡ manifest_digest entries total)
  payload_manifest_bounds l h = subst ManifestOk h (payload_manifest-Ok l)
