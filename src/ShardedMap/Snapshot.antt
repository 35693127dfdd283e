-- ===== src/ShardedMap/Snapshot.antt =====
-- `snapshot` and `size` of sharded_topic_map.cpp against `find`.
use Prim.Native.Nat.{bit_and}
use tyche_engine.Common.{
  ℕ, zero, suc, ◌+◌, ◌<◌, ◌≡◌, ◌≢◌, refl, ap, subst, ◌∙◌, arith, none, List, [], ◌∷◌, length,
  length-append, get_or, Bytes, bytes_discrete,
}
use tyche_engine.Common.Assoc
use tyche_engine.ShardedMap.{
  Bucket, ShardedMap, no_bucket, bucket_index, fnv1a_64, find, all_entries, snapshot, count_entries,
  size,
}
use tyche_engine.ShardedMap.Homed.{HasIndex, IsHome, IsValid}

module _ {Q : Type 0} (mask : ℕ) (j : Bytes) where
  -- The buckets `bs` have the indices from `i` on.
  abbrev Homes : ℕ → List (Bucket Q) → Type 0
  Homes i bs = (d n : ℕ) → n ≡ i + d → IsHome mask n (get_or bs d no_bucket)

  elsewhere :
      (i : ℕ) (b : Bucket Q)
      → IsHome mask i b
      → bit_and (fnv1a_64 j) mask ≢ i
      → Assoc.lookup bytes_discrete j b.entries ≡ none
  elsewhere i b h n =
      Assoc.lookup-none bytes_discrete (HasIndex mask i) j b.entries h.entries_here n

  all_entries-none :
      (i : ℕ) (bs : List (Bucket Q))
      → Homes i bs
      → bit_and (fnv1a_64 j) mask < i
      → Assoc.lookup bytes_discrete j (all_entries bs) ≡ none
  unfolding all_entries Assoc.lookup
  all_entries-none i [] h l = refl
  all_entries-none i (b ∷ bs) h l =
      Assoc.lookup-append bytes_discrete j b.entries (all_entries bs)
      ∙ ap (λ o. Assoc.or_then o (Assoc.lookup bytes_discrete j (all_entries bs)))
          (elsewhere i b (h 0 i (omega arith)) (λ e. omega (arith, e)))
      ∙ all_entries-none (suc i) bs (λ d n e. h (suc d) n (omega arith)) (omega arith)

  lookup-all_entries :
      (i : ℕ) (bs : List (Bucket Q)) (d : ℕ)
      → Homes i bs
      → bit_and (fnv1a_64 j) mask ≡ i + d
      → Assoc.lookup bytes_discrete j (all_entries bs)
        ≡ Assoc.lookup bytes_discrete j (get_or bs d no_bucket).entries
  unfolding all_entries
  lookup-all_entries i [] d h e = refl
  lookup-all_entries i (b ∷ bs) zero h e =
      Assoc.lookup-append bytes_discrete j b.entries (all_entries bs)
      ∙ ap (λ o. Assoc.or_then (Assoc.lookup bytes_discrete j b.entries) o)
          (all_entries-none (suc i) bs (λ d n e. h (suc d) n (omega arith)) (omega arith))
      ∙ Assoc.or_then-none (Assoc.lookup bytes_discrete j b.entries)
  lookup-all_entries i (b ∷ bs) (suc d) h e =
      Assoc.lookup-append bytes_discrete j b.entries (all_entries bs)
      ∙ ap (λ o. Assoc.or_then o (Assoc.lookup bytes_discrete j (all_entries bs)))
          (elsewhere i b (h 0 i (omega arith)) (λ e'. omega (arith, e, e')))
      ∙ lookup-all_entries (suc i) bs d (λ d n e. h (suc d) n (omega arith)) (omega arith)

count-length : {Q : Type 0} (bs : List (Bucket Q)) → count_entries bs ≡ length (all_entries bs)
unfolding count_entries all_entries
count-length [] = refl
count-length (b ∷ bs) = omega (arith, length-append b.entries (all_entries bs), count-length bs)

-- Of a valid map, the snapshot has for each topic what `find` has, and `size` is its length.
pub snapshot_lem :
    {Q : Type 0} (k : ℕ) (m : ShardedMap Q)
    → IsValid k m
    → ((j : Bytes) → Assoc.lookup bytes_discrete j (snapshot m) ≡ find j m)
      × (size m ≡ length (snapshot m))
unfolding snapshot find bucket_index size
snapshot_lem k m v = (
  λ j.
      lookup-all_entries m.bucket_mask j 0 m.buckets (bit_and (fnv1a_64 j) m.bucket_mask)
        (λ d n e.
          subst (λ i. IsHome m.bucket_mask i (get_or m.buckets d no_bucket)) (omega arith)
            (v.homes d))
        (omega arith),
  count-length m.buckets,
)
