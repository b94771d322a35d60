-- ===== src/Brief/Manifest/Hashes.antt =====
-- Where the digests of a manifest come from.
use prolewatch.Prelude.{
  ◌≡◌, refl, ◌⊎◌, inl, inr, false, List, [], ◌∷◌, some, Bytes, bytes_eq, bytes_eq_iff, is_empty,
  arith, Bool-cases, Option-cases, IsIn, here, there,
}
use prolewatch.Brief.Manifest.{
  FileRecord, Codec, validate_manifest_record, hash_at, add_hashes, manifest_entry_hashes,
}

module _ {V : Type 0} (codec : Codec V) where
  -- The digest that a valid entry of the list has for this path.
  pub data HasHash (path hash : Bytes) : List V → Type 0 where
    entry :
        {vs : List V} (v : V) (r : FileRecord)
        → IsIn v vs
        → validate_manifest_record codec v ≡ some r
        → r.path ≡ path
        → codec.entry_hash v ≡ some hash
        → HasHash path hash vs

  later :
      {path hash : Bytes} {v : V} {vs : List V} → HasHash path hash vs → HasHash path hash (v ∷ vs)
  later (entry v r i valid at_path hashed) = entry v r (there i) valid at_path hashed

  add_hashes-HasHash :
      (result out : List (Bytes × Bytes)) (vs : List V) (path : Bytes)
      → add_hashes codec result vs ≡ some out
      → (hash_at out path ≡ hash_at result path) ⊎ HasHash path (hash_at out path) vs
  unfolding add_hashes
  add_hashes-HasHash result out [] path h = inl (ground arith)
  add_hashes-HasHash result out (v ∷ vs) path h =
      elim (Option-cases (validate_manifest_record codec v)) [
        | inl invalid ↦ absurd (ground arith)
        | inr (r, valid) ↦ elim (Option-cases (codec.entry_hash v)) [
          | inl unhashed ↦ absurd (ground arith)
          | inr (d, hashed) ↦
              elim (add_hashes-HasHash ((r.path, d) ∷ result) out vs path (ground arith)) [
                | inr found ↦ inr (later found)
                | inl same ↦ elim (Bool-cases (bytes_eq r.path path)) [
                  | inr other ↦ inl (ground arith)
                  | inl this ↦ inr (
                      entry v r (here refl) valid ((bytes_eq_iff r.path path).0 this)
                        (ground arith))
                ]
              ]
        ]
      ]

  -- A digest that is read out of the map is that of an entry of the manifest for this path.
  pub manifest_entry_hashes-HasHash :
      (vs : List V) (out : List (Bytes × Bytes)) (path : Bytes)
      → manifest_entry_hashes codec vs ≡ some out
      → is_empty (hash_at out path) ≡ false
      → HasHash path (hash_at out path) vs
  unfolding manifest_entry_hashes
  manifest_entry_hashes-HasHash vs out path h ne = elim (add_hashes-HasHash [] out vs path h) [
    | inl missing ↦ absurd (ground arith)
    | inr found ↦ found
  ]
