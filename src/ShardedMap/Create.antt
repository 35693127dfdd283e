-- ===== src/ShardedMap/Create.antt =====
-- The constructor of sharded_topic_map.cpp: a power of two of buckets, each empty.
use Prim.Native.Nat.{bit_and}
use native.Mathlib.Nat.{one-le-pow, two-pow-succ, pow-le-pow_right}
use tyche_engine.Common.{
  ℕ, zero, suc, ◌+◌, ◌-◌, ◌*◌, ◌%◌, ◌^◌, ◌≤◌, ◌<◌, ◌≡◌, inl, inr, refl, sym, ap, subst, ◌∙◌, arith,
  true, false, length-replicate, get_or-replicate, ◌==◌, Bool-cases, ==_iff, dec_lt, ℕ_discrete,
}
use tyche_engine.Common.Mask.{power_of_clear}
use tyche_engine.Common.Words.{word, sub_size}
use tyche_engine.ShardedMap.{no_bucket, with_buckets, round_up, new}
use tyche_engine.ShardedMap.Homed.{IsValid}

with_buckets-IsValid : (Q : Type 0) (k : ℕ) → IsValid k (with_buckets {Q = Q} (2 ^ k) (2 ^ k - 1))
with_buckets-IsValid Q k = record {
  counted = refl;
  masked = refl;
  cells = length-replicate (2 ^ k) no_bucket;
  homes = λ i.
      rw (get_or-replicate (2 ^ k) i (no_bucket {Q = Q}))
        (record { entries_here = tt; times_here = tt; entries_once = tt });
}

-- From `2 ^ i` the loop ends at the first power of two that is not below `n`.
round_up_lem :
    (fuel i n : ℕ)
    → i ≤ 63
    → 64 ≤ fuel + i
    → n ≤ 2 ^ 63
    → (2 ^ i < 2 * n)
    → (k : ℕ) × (round_up fuel (2 ^ i) n ≡ 2 ^ k) × (n ≤ 2 ^ k) × (2 ^ k < 2 * n) × (k ≤ 63)
unfolding round_up
round_up_lem zero i n h f b l = absurd (omega arith)
round_up_lem (suc fuel) i n h f b l = elim (dec_lt (2 ^ i) n) [
  | yes less ↦
      let (k, e, p, q, r) =
        round_up_lem fuel (suc i) n (below less) (omega arith) b (omega (arith, two-pow-succ i)) in
      (k, ground (arith, ap (λ t. round_up fuel t n) (doubled (below less)), e), p, q, r)
  | no done ↦ (i, ground arith, omega arith, l, h)
]
  where
    below : 2 ^ i < n → suc i ≤ 63
    below less = elim (ℕ_discrete i 63) [
      | yes e ↦ absurd (omega (arith, ap (λ t. 2 ^ t) e))
      | no d ↦ omega arith
    ]

    doubled : suc i ≤ 63 → 2 ^ i * 2 % word ≡ 2 ^ suc i
    doubled j =
        omega (arith, two-pow-succ i, pow-le-pow_right {n = 2} (omega arith) {i = suc i} {j = 63} j)

new-clear :
    (Q : Type 0) (n : ℕ)
    → (bit_and n (sub_size n 1) == 0) ≡ true
    → new Q n ≡ with_buckets n (sub_size n 1)
unfolding new
new-clear Q n e = rw (e, new)

new-round :
    (Q : Type 0) (n : ℕ)
    → (bit_and n (sub_size n 1) == 0) ≡ false
    → new Q n ≡ with_buckets (round_up 64 1 n) (sub_size (round_up 64 1 n) 1)
unfolding new
new-round Q n e = rw (e, new)

as_power :
    (Q : Type 0) (n k : ℕ)
    → n ≡ 2 ^ k
    → n ≤ 2 ^ 63
    → IsValid k (with_buckets {Q = Q} n (sub_size n 1))
as_power Q n k e b =
    subst (λ t. IsValid k (with_buckets {Q = Q} t (sub_size t 1))) (sym e)
      (subst (λ t. IsValid k (with_buckets {Q = Q} (2 ^ k) t)) lower (with_buckets-IsValid Q k))
  where
    lower : 2 ^ k - 1 ≡ sub_size (2 ^ k) 1
    lower = omega (arith, e, one-le-pow k 2 (omega arith))

-- For a requested number of buckets from 1 to 2^63, the constructor makes a valid map whose number
-- of buckets is a power of two, not below the request and below its double.
pub new_lem :
    (Q : Type 0) (bucket_count : ℕ)
    → 1 ≤ bucket_count
    → bucket_count ≤ 2 ^ 63
    → (k : ℕ) × IsValid k (new Q bucket_count) × (bucket_count ≤ 2 ^ k) × (2 ^ k < 2 * bucket_count)
new_lem Q n h b = elim (Bool-cases (bit_and n (sub_size n 1) == 0)) [
  | inl e ↦
      let (k, p) = power_of_clear n n (omega arith) h (ap (bit_and n) before ∙ (==_iff _ 0).0 e) in
      (
        k,
        subst (IsValid k) (sym (new-clear Q n e)) (as_power Q n k p b),
        omega (arith, p),
        omega (arith, p),
      )
  | inr e ↦
      let (k, p, q, r, s) = round_up_lem 64 0 n (omega arith) (omega arith) b (omega arith) in
      (
        k,
        subst (IsValid k) (sym (new-round Q n e)) (
            as_power Q (round_up 64 1 n) k p
              (omega (arith, p, pow-le-pow_right {n = 2} (omega arith) {i = k} {j = 63} s))),
        q,
        r,
      )
]
  where
    before : n - 1 ≡ sub_size n 1
    before = omega arith
