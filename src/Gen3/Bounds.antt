-- ===== src/Gen3/Bounds.antt =====
-- What `payload_manifest` of src/dger/relay_protocol_fs.py promises of a payload that it accepts.
use Prim.Native.Nat.{Ordering}
use Prim.Native.String.{compare}
use dropbox_governed_executi.Prelude.{
  ℕ, suc, ◌+◌, ◌≤◌, String, ◌≡◌, refl, ap, ◌∙◌, subst, false, List, [], ◌∷◌, length, All, arith,
  leb, leb→le, nat_eq, Bool-cases, inl, inr,
}
use dropbox_governed_executi.Result.{Result, ok, err, Result-cases, ◌>>=◌}
use dropbox_governed_executi.Platform.{Python}
use dropbox_governed_executi.Primitives.Files.{Entry, absent, link, directory, special, regular}
use dropbox_governed_executi.Primitives.Payload.{
  PayloadEntry, max_files, max_file_bytes, max_total_bytes,
}
use dropbox_governed_executi.Primitives.Bounds.{total_size}
use dropbox_governed_executi.Gen3.Payload.{
  Walked, directory_link, file, walked, insert_entry, sort_entries, safe_payload_path, walked_entry,
  walk_loop, walked_manifest, schema_digest, payload_manifest_schema,
}

-- Sorting moves entries and keeps what they are.
insert_entry-length :
    (e : PayloadEntry) (l : List PayloadEntry) → length (insert_entry e l) ≡ suc (length l)
unfolding insert_entry
insert_entry-length e [] = refl
insert_entry-length e (f ∷ l) =
    elim (compare f.path e.path)
      as (λ o.
        length (elim o [ Ordering.gt ↦ e ∷ f ∷ l | _ ↦ f ∷ insert_entry e l ])
        ≡ suc (suc (length l))) [
          | Ordering.gt ↦ refl
          | Ordering.lt ↦ ap (λ n. suc n) (insert_entry-length e l)
          | Ordering.eq ↦ ap (λ n. suc n) (insert_entry-length e l)
        ]

sort_entries-length : (l : List PayloadEntry) → length (sort_entries l) ≡ length l
unfolding sort_entries
sort_entries-length [] = refl
sort_entries-length (e ∷ l) =
    insert_entry-length e (sort_entries l) ∙ ap (λ n. suc n) (sort_entries-length l)

insert_entry-total_size :
    (e : PayloadEntry) (l : List PayloadEntry)
    → total_size (insert_entry e l) ≡ e.size + total_size l
unfolding insert_entry
insert_entry-total_size e [] = refl
insert_entry-total_size e (f ∷ l) =
    let later : f.size + total_size (insert_entry e l) ≡ e.size + (f.size + total_size l) =
      rw (insert_entry-total_size e l) (omega arith) in
    elim (compare f.path e.path)
      as (λ o.
        total_size (elim o [ Ordering.gt ↦ e ∷ f ∷ l | _ ↦ f ∷ insert_entry e l ])
        ≡ e.size + (f.size + total_size l)) [
          | Ordering.gt ↦ refl
          | Ordering.lt ↦ later
          | Ordering.eq ↦ later
        ]

sort_entries-total_size : (l : List PayloadEntry) → total_size (sort_entries l) ≡ total_size l
unfolding sort_entries
sort_entries-total_size [] = refl
sort_entries-total_size (e ∷ l) =
    insert_entry-total_size e (sort_entries l) ∙ ap (λ n. e.size + n) (sort_entries-total_size l)

module _ (P : PayloadEntry → Type 0) where
  insert_entry-All :
      (e : PayloadEntry) (l : List PayloadEntry) → P e → All P l → All P (insert_entry e l)
  unfolding insert_entry
  insert_entry-All e [] p a = (p, tt)
  insert_entry-All e (f ∷ l) p a =
      elim (compare f.path e.path)
        as (λ o. All P (elim o [ Ordering.gt ↦ e ∷ f ∷ l | _ ↦ f ∷ insert_entry e l ])) [
          | Ordering.gt ↦ (p, a)
          | Ordering.lt ↦ (a.0, insert_entry-All e l p a.1)
          | Ordering.eq ↦ (a.0, insert_entry-All e l p a.1)
        ]

  sort_entries-All : (l : List PayloadEntry) → All P l → All P (sort_entries l)
  unfolding sort_entries
  sort_entries-All [] a = tt
  sort_entries-All (e ∷ l) a = insert_entry-All e (sort_entries l) a.0 (sort_entries-All l a.1)

module _ ⦃py : Python⦄ where
  -- Every file of a manifest is bounded, and stands at an accepted path.
  abbrev pub WalkedOk : PayloadEntry → Type 0
  WalkedOk e = (e.size ≤ max_file_bytes) × (safe_payload_path e.path ≡ ok tt)

  walked_entry-Ok :
      (root : String) (total : ℕ) (rel : String) (e : Entry) (entry : PayloadEntry)
      → walked_entry root total rel e ≡ ok entry
      → WalkedOk entry × (total + entry.size ≤ max_total_bytes)
  unfolding walked_entry
  walked_entry-Ok root total rel absent entry h = cc
  walked_entry-Ok root total rel link entry h = cc
  walked_entry-Ok root total rel directory entry h = cc
  walked_entry-Ok root total rel special entry h = cc
  walked_entry-Ok root total rel (regular mode size raw) entry h = ground arith

  -- What the loops return from a count and a total.
  record IsWithin (count total : ℕ) (entries : List PayloadEntry) (final : ℕ) : Type 0 where
    few : length entries + count ≤ max_files
    sum : final ≡ total + total_size entries
    bounded : final ≤ max_total_bytes
    each : All WalkedOk entries

  abbrev ResultWithin : ℕ → ℕ → Result (List PayloadEntry × ℕ) → Type 0
  ResultWithin count total (ok (entries, final)) = IsWithin count total entries final
  ResultWithin count total (err e) = Unit

  -- One more file in front of what the rest of the loops returns.
  one_more :
      (count total : ℕ) (entry : PayloadEntry) (rest : Result (List PayloadEntry × ℕ))
      → WalkedOk entry
      → ResultWithin (count + 1) (total + entry.size) rest
      → ResultWithin count total (rest >>= λ (es, final). ok (entry ∷ es, final))
  one_more count total entry (err e) w f = tt
  one_more count total entry (ok (es, final)) w f = record {
    few = omega (arith, f.few);
    sum = omega (arith, f.sum);
    bounded = f.bounded;
    each = (w, f.each);
  }

  walk_loop-Within :
      (root : String) (count total : ℕ) (l : List Walked)
      → count ≤ max_files
      → total ≤ max_total_bytes
      → ResultWithin count total (walk_loop root count total l)
  unfolding walk_loop
  walk_loop-Within root count total [] c t = record {
    few = omega (arith, c);
    sum = omega arith;
    bounded = t;
    each = tt;
  }
  walk_loop-Within root count total (directory_link rel ∷ l) c t = tt
  walk_loop-Within root count total (file rel e ∷ l) c t =
      elim (Result-cases (walked_entry root total rel e)) [
        | inr (x, p) ↦ rw p tt
        | inl (entry, p) ↦
            let w = walked_entry-Ok root total rel e entry p in
            elim (Bool-cases (leb (count + 1) max_files)) [
              | inr many ↦ rw (p, many) tt
              | inl room ↦
                  rw (p, room)
                    (one_more count total entry _ w.0 (
                      walk_loop-Within root (count + 1) (total + entry.size) l (leb→le _ _ room)
                        w.1))
            ]
      ]

  -- A manifest of a payload that is accepted.
  pub record IsBounded (entries : List PayloadEntry) (total : ℕ) (digest : String) : Type 0 where
    pub some_file : 1 ≤ length entries
    pub few : length entries ≤ max_files
    pub sum : total ≡ total_size entries
    pub bounded : total ≤ max_total_bytes
    pub each : All WalkedOk entries
    pub bound : digest ≡ schema_digest payload_manifest_schema entries

  abbrev ManifestBounded : Result (List PayloadEntry × ℕ × String) → Type 0
  ManifestBounded (ok (entries, total, digest)) = IsBounded entries total digest
  ManifestBounded (err e) = Unit

  sorted_manifest :
      (found : List PayloadEntry) (total : ℕ)
      → IsWithin 0 0 found total
      → nat_eq (length (sort_entries found)) 0 ≡ false
      → IsBounded
          (sort_entries found)
          total
          (schema_digest payload_manifest_schema (sort_entries found))
  sorted_manifest found total w n = record {
    some_file = ground (arith, n);
    few = rw (sort_entries-length found) (omega (arith, w.few));
    sum = rw (sort_entries-total_size found) (omega (arith, w.sum));
    bounded = w.bounded;
    each = sort_entries-All WalkedOk found w.each;
    bound = refl;
  }

  walked_manifest-Bounded :
      (root : String) (l : List Walked) → ManifestBounded (walked_manifest root (walked l))
  unfolding walked_manifest
  walked_manifest-Bounded root l =
      let within = walk_loop-Within root 0 0 l (omega arith) (omega arith) in
      elim (Result-cases (walk_loop root 0 0 l)) [
        | inr (x, p) ↦ rw p tt
        | inl ((found, total), p) ↦ elim (Bool-cases (nat_eq (length (sort_entries found)) 0)) [
          | inl e ↦ rw (p, e) tt
          | inr e ↦ rw (p, e) (sorted_manifest found total (rw p at within) e)
        ]
      ]

  -- A payload that the first relay accepts has at least one and at most 64 files of at most 256 KiB each,
  -- at accepted paths; its total is the sum of their sizes and at most 2 MiB, and its digest is that of
  -- the sorted entries.
  pub walked_manifest_bounds :
      (root : String) (l : List Walked) {entries : List PayloadEntry} {total : ℕ} {digest : String}
      → walked_manifest root (walked l) ≡ ok (entries, total, digest)
      → IsBounded entries total digest
  walked_manifest_bounds root l h = subst ManifestBounded h (walked_manifest-Bounded root l)
