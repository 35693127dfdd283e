-- ===== src/ShardedMap/Homed.antt =====
-- The invariant of sharded_topic_map.cpp: each topic stands in the bucket of its hash, at most once.
use Prim.Native.Nat.{bit_and}
use native.Mathlib.Nat.{one-le-pow, mod-lt}
use tyche_engine.Common.{
  ℕ, ◌-◌, ◌^◌, ◌<◌, ◌≡◌, ◌≢◌, sym, ap, subst, ◌∙◌, arith, length, get_or, set, length-set,
  get_or-set_self, get_or-set_ne, Bytes, bytes_discrete, ℕ_discrete,
}
use tyche_engine.Common.Assoc.{AllKeys, NodupKeys}
use tyche_engine.Common.Mask.{bit_and-mask}
use tyche_engine.ShardedMap.{
  Bucket, ShardedMap, no_bucket, bucket_index, bucket_of, set_bucket, fnv1a_64,
}

abbrev pub HasIndex : ℕ → ℕ → Bytes → Type 0
HasIndex mask i t = bit_and (fnv1a_64 t) mask ≡ i

module _ {Q : Type 0} where
  pub record IsHome (mask i : ℕ) (b : Bucket Q) : Type 0 where
    pub entries_here : AllKeys bytes_discrete (HasIndex mask i) b.entries
    pub times_here : AllKeys bytes_discrete (HasIndex mask i) b.last_access_times
    pub entries_once : NodupKeys bytes_discrete b.entries

  pub record IsValid (k : ℕ) (m : ShardedMap Q) : Type 0 where
    pub counted : m.bucket_count ≡ 2 ^ k
    pub masked : m.bucket_mask ≡ 2 ^ k - 1
    pub cells : length m.buckets ≡ 2 ^ k
    pub homes : (i : ℕ) → IsHome m.bucket_mask i (get_or m.buckets i no_bucket)

  -- No operation reads or writes outside the bucket array.
  pub bucket_index-lt :
      {k : ℕ} {m : ShardedMap Q} (topic : Bytes)
      → IsValid k m
      → bucket_index m topic < length m.buckets
  unfolding bucket_index
  bucket_index-lt {k} {m} topic v = omega (
    arith,
    ap (λ t. bit_and (fnv1a_64 topic) t) v.masked ∙ bit_and-mask k (fnv1a_64 topic),
    mod-lt (fnv1a_64 topic) (one-le-pow k 2 (omega arith)),
    v.cells,
  )

  module _ {k : ℕ} {m : ShardedMap Q} (v : IsValid k m) (topic : Bytes) where
    pub IsHome-bucket_of : IsHome m.bucket_mask (bucket_index m topic) (bucket_of m topic)
    IsHome-bucket_of = v.homes (bucket_index m topic)

    pub bucket_of-set_bucket_self : (b : Bucket Q) → bucket_of (set_bucket m topic b) topic ≡ b
    unfolding bucket_index
    bucket_of-set_bucket_self b =
        get_or-set_self m.buckets (bucket_index m topic) b no_bucket (bucket_index-lt topic v)

    pub bucket_of-set_bucket_ne :
        (b : Bucket Q) (j : Bytes)
        → bucket_index m topic ≢ bucket_index m j
        → bucket_of (set_bucket m topic b) j ≡ bucket_of m j
    unfolding bucket_index
    bucket_of-set_bucket_ne b j n =
        get_or-set_ne m.buckets (bucket_index m topic) (bucket_index m j) b no_bucket n

    pub bucket_of-set_bucket_eq :
        (b : Bucket Q) (j : Bytes)
        → bucket_index m topic ≡ bucket_index m j
        → bucket_of (set_bucket m topic b) j ≡ b
    unfolding bucket_index
    bucket_of-set_bucket_eq b j e =
        ap (λ i. get_or (set m.buckets (bucket_index m topic) b) i no_bucket) (sym e)
        ∙ bucket_of-set_bucket_self b

    pub set_bucket-IsValid :
        (b : Bucket Q)
        → IsHome m.bucket_mask (bucket_index m topic) b
        → IsValid k (set_bucket m topic b)
    set_bucket-IsValid b h = record {
      counted = v.counted;
      masked = v.masked;
      cells = length-set m.buckets (bucket_index m topic) b ∙ v.cells;
      homes = λ i. home i (ℕ_discrete (bucket_index m topic) i);
    }
      where
        home :
            (i : ℕ)
            → Dec (bucket_index m topic ≡ i)
            → IsHome m.bucket_mask i (get_or (set m.buckets (bucket_index m topic) b) i no_bucket)
        home i (yes e) =
            subst
              (λ i.
                IsHome m.bucket_mask i
                  (get_or (set m.buckets (bucket_index m topic) b) i no_bucket))
              e
              (rw
                (get_or-set_self m.buckets (bucket_index m topic) b no_bucket
                  (bucket_index-lt topic v))
                h)
        home i (no n) =
            rw (get_or-set_ne m.buckets (bucket_index m topic) i b no_bucket n) (v.homes i)
