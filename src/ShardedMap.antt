-- ===== src/ShardedMap.antt =====
-- src/tyche/cpp/engine/sharded_topic_map.h and .cpp: topic queues in buckets by the FNV-1a hash of
-- the topic. A bucket's spinlock is held over each access of it: an operation on one bucket is one
-- step, and `snapshot` and `size`, which take the locks in turn, run with no writer between.
-- `Q` is `std::shared_ptr<TopicQueue>`.
pub mod Homed
pub mod Finite
pub mod Create
pub mod Snapshot
use Prim.Native.Nat.{bit_and, bit_xor}
use tyche_engine.Common.{
  ℕ, zero, suc, ◌+◌, ◌*◌, ◌%◌, ◌≡◌, Bool, true, false, Option, none, some, List, [], ◌∷◌, ◌++◌,
  length, get_or, set, replicate, ltb, ◌==◌, if◌then◌else◌, Bytes, bytes_discrete,
}
use tyche_engine.Common.Assoc
use tyche_engine.Common.Words.{word, add_size, sub_size}

abbrev pub fnv_offset : ℕ
fnv_offset = 0xcbf29ce484222325

abbrev pub fnv_prime : ℕ
fnv_prime = 0x100000001b3

fnv_from : ℕ → Bytes → ℕ
fnv_from hash [] = hash
fnv_from hash (c ∷ cs) = fnv_from (bit_xor hash c * fnv_prime % word) cs

unfoldable pub fnv1a_64 : Bytes → ℕ
unfolding fnv_from
fnv1a_64 s = fnv_from fnv_offset s

-- `while (pow2 < bucket_count) pow2 <<= 1`, for at most `fuel` rounds.
unfoldable pub round_up : ℕ → ℕ → ℕ → ℕ
round_up zero pow2 bucket_count = pow2
round_up (suc fuel) pow2 bucket_count =
    let rest = round_up fuel (pow2 * 2 % word) bucket_count in
    if ltb pow2 bucket_count then rest else pow2

pub record Bucket (Q : Type 0) : Type 0 where
  pub entries : List (Bytes × Q)
  pub last_access_times : List (Bytes × ℕ)

pub record ShardedMap (Q : Type 0) : Type 0 where
  pub bucket_count : ℕ
  pub bucket_mask : ℕ
  pub buckets : List (Bucket Q)

abbrev pub or_else : {A : Type 0} → Option A → A → A
or_else none d = d
or_else (some a) d = a

-- What `get_or_create` returns, whether it made the queue, and `*out_last_access` after it.
pub record Created (Q : Type 0) : Type 0 where
  pub queue : Q
  pub made : Bool
  pub out_last_access : ℕ
  pub after : ShardedMap Q

module _ {Q : Type 0} where
  abbrev pub no_bucket : Bucket Q
  no_bucket = record { entries = []; last_access_times = [] }

  -- What the constructor makes of its two sizes.
  abbrev pub with_buckets : ℕ → ℕ → ShardedMap Q
  with_buckets count mask = record {
    bucket_count = count;
    bucket_mask = mask;
    buckets = replicate count no_bucket;
  }

  unfoldable pub bucket_index : ShardedMap Q → Bytes → ℕ
  bucket_index m topic = bit_and (fnv1a_64 topic) m.bucket_mask

  abbrev pub bucket_of : ShardedMap Q → Bytes → Bucket Q
  bucket_of m topic = get_or m.buckets (bucket_index m topic) no_bucket

  abbrev pub set_bucket : ShardedMap Q → Bytes → Bucket Q → ShardedMap Q
  set_bucket m topic b = record m { buckets = set m.buckets (bucket_index m topic) b }

  unfoldable pub find : Bytes → ShardedMap Q → Option Q
  find topic m = Assoc.lookup bytes_discrete topic (bucket_of m topic).entries

  unfoldable pub get_raw : Bytes → ShardedMap Q → Option Q
  get_raw topic m = Assoc.lookup bytes_discrete topic (bucket_of m topic).entries

  -- `fresh` is the queue that `make_shared` would return, `out` the value behind
  -- `out_last_access` before the call.
  unfoldable pub get_or_create : Bytes → Q → ℕ → ShardedMap Q → Created Q
  get_or_create topic fresh out m =
      let b = bucket_of m topic in
      elim (Assoc.lookup bytes_discrete topic b.entries) [
        | some q ↦ record {
          queue = q;
          made = false;
          out_last_access = or_else (Assoc.lookup bytes_discrete topic b.last_access_times) out;
          after = m;
        }
        | none ↦ record {
          queue = fresh;
          made = true;
          out_last_access = 0;
          after = set_bucket m topic (record {
            entries = b.entries ++ ((topic, fresh) ∷ []);
            last_access_times = b.last_access_times ++ ((topic, 0) ∷ []);
          });
        }
      ]

  unfoldable pub erase : Bytes → ShardedMap Q → ShardedMap Q
  erase topic m =
      let b = bucket_of m topic in
      set_bucket m topic (record {
        entries = Assoc.erase bytes_discrete topic b.entries;
        last_access_times = Assoc.erase bytes_discrete topic b.last_access_times;
      })

  unfoldable pub all_entries : List (Bucket Q) → List (Bytes × Q)
  all_entries [] = []
  all_entries (b ∷ bs) = b.entries ++ all_entries bs

  unfoldable pub snapshot : ShardedMap Q → List (Bytes × Q)
  unfolding all_entries
  snapshot m = all_entries m.buckets

  -- The first entry of the topic is overwritten, or an entry is added at the end.
  unfoldable pub touch : Bytes → ℕ → ShardedMap Q → ShardedMap Q
  touch topic now m =
      let b = bucket_of m topic in
      set_bucket m topic
        (record b { last_access_times = Assoc.assign bytes_discrete topic now b.last_access_times })

  unfoldable pub last_access : Bytes → ShardedMap Q → ℕ
  last_access topic m =
      or_else (Assoc.lookup bytes_discrete topic (bucket_of m topic).last_access_times) 0

  unfoldable pub count_entries : List (Bucket Q) → ℕ
  count_entries [] = 0
  count_entries (b ∷ bs) = length b.entries + count_entries bs

  unfoldable pub size : ShardedMap Q → ℕ
  unfolding count_entries
  size m = count_entries m.buckets

unfoldable pub new : (Q : Type 0) → ℕ → ShardedMap Q
unfolding round_up
new Q bucket_count =
    let mask = sub_size bucket_count 1 in
    if bit_and bucket_count mask == 0
    then with_buckets bucket_count mask
    else let pow2 = round_up 64 1 bucket_count in with_buckets pow2 (sub_size pow2 1)
