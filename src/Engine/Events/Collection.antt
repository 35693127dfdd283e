-- ===== src/Engine/Events/Collection.antt =====
-- src/tyche/cpp/engine/engine.cpp: what the garbage collection of the monitor removes.
use tyche_engine.Common.{
  ℕ, ◌+◌, ◌≡◌, refl, sym, ap, ap₂, subst, map, ◌∙◌, arith, Bool, true, false, Option, none, List,
  [], ◌∷◌, ◌==◌, ◌||◌, ltb, not, ite, if_pos, if_neg, Bytes, bytes_discrete, if◌then◌else◌,
  Bool-cases, inl, inr,
}
use tyche_engine.ShardedMap
use tyche_engine.ShardedMap.{find, last_access}
use tyche_engine.ShardedMap.Homed.{IsValid}
use tyche_engine.ShardedMap.Finite.{erase_lem}
use tyche_engine.Engine.{Engine}
use tyche_engine.Intern
use tyche_engine.Common.Members.{contains}
use tyche_engine.Engine.Events.Usage.{Stays, Goes, InUse, Idle, InUse-Stays, Idle-Goes}
use tyche_engine.Engine.Events.{active_of, is_active, is_stale, collect}

-- The body of the loop of the garbage collection.
abbrev visit : ℕ → Bytes → Engine → Engine
visit now topic e =
    if is_active topic e
    then e
    else if is_stale now topic e
    then record e { topic_queues = ShardedMap.erase topic e.topic_queues }
    else e

abbrev without : Bytes → Engine → Engine
without topic e = record e { topic_queues = ShardedMap.erase topic e.topic_queues }

active_of-without :
    (topic : Bytes) (e : Engine) (m : List (ℕ × List Bytes))
    → active_of (without topic e) m ≡ active_of e m
unfolding active_of
active_of-without topic e [] = refl
active_of-without topic e ((id, []) ∷ m) = active_of-without topic e m
active_of-without topic e ((id, x ∷ xs) ∷ m) =
    ap (λ l. Intern.resolve id e.interned ∷ l) (active_of-without topic e m)

is_active-without : (topic j : Bytes) (e : Engine) → is_active j (without topic e) ≡ is_active j e
unfolding is_active
is_active-without topic j e =
    ap₂ (λ a b. contains j a || contains j b) (active_of-without topic e e.topic_subscribers)
      (active_of-without topic e e.topic_producers)

is_stale-without :
    (k now : ℕ) (topic j : Bytes) (e : Engine)
    → IsValid k e.topic_queues
    → ¬ (topic ≡ j)
    → is_stale now j (without topic e) ≡ is_stale now j e
unfolding is_stale
is_stale-without k now topic j e v n =
    ap (λ t. ltb ((if t == 0 then now else t) + e.topic_queue_ttl) now)
      ((erase_lem v topic).2 j ∙ if_neg (bytes_discrete topic j) n 0 (last_access j e.topic_queues))

-- What one visit leaves of a topic.
clash : (b : Bool) → b ≡ true → b ≡ false → ⊥
clash b p q = ground arith

unused : (a s : Bool) → a ≡ false → s ≡ true → ¬ ((a || not s) ≡ true)
unused a s p q r = ground arith

record Visited (k now : ℕ) (topic : Bytes) (e e' : Engine) : Type 0 where
  stays_valid : IsValid k e'.topic_queues
  stays_used : (j : Bytes) → Stays now j e → Stays now j e'
  stays_there : (j : Bytes) → Stays now j e → find j e'.topic_queues ≡ find j e.topic_queues
  stays_gone : (j : Bytes) → find j e.topic_queues ≡ none → find j e'.topic_queues ≡ none
  stays_idle : (j : Bytes) → ¬ (topic ≡ j) → Goes now j e → Goes now j e'
  goes : Goes now topic e → find topic e'.topic_queues ≡ none

visit-Visited :
    (k now : ℕ) (topic : Bytes) (e : Engine)
    → IsValid k e.topic_queues
    → Visited k now topic e (visit now topic e)
visit-Visited k now topic e v = elim (Bool-cases (is_active topic e)) [
  | inl a ↦ rw (a) (same (λ i. clash (is_active topic e) a i.0))
  | inr a ↦ elim (Bool-cases (is_stale now topic e)) [
    | inl s ↦ rw (a, s) (swept a s)
    | inr s ↦ rw (a, s) (same (λ i. clash (is_stale now topic e) i.1 s))
  ]
]
  where
    same : (Goes now topic e → ⊥) → Visited k now topic e e
    same n = record {
      stays_valid = v;
      stays_used = λ j u. u;
      stays_there = λ j u. refl;
      stays_gone = λ j g. g;
      stays_idle = λ j _ i. i;
      goes = λ i. absurd (n i);
    }

    swept :
        is_active topic e ≡ false
        → is_stale now topic e ≡ true
        → Visited k now topic e (without topic e)
    swept a s = record {
      stays_valid = (erase_lem v topic).0;
      stays_used = λ j u.
          let n = other j u in
          subst (λ b. (b || not (is_stale now j (without topic e))) ≡ true)
            (sym (is_active-without topic j e))
            (subst (λ b. (is_active j e || not b) ≡ true)
              (sym (is_stale-without k now topic j e v n)) u);
      stays_there = λ j u.
          (erase_lem v topic).1 j
          ∙ if_neg (bytes_discrete topic j) (other j u) none (find j e.topic_queues);
      stays_gone = λ j g. (erase_lem v topic).1 j ∙ nothing (bytes_discrete topic j) _ g;
      stays_idle =
          λ j n i. (is_active-without topic j e ∙ i.0, is_stale-without k now topic j e v n ∙ i.1);
      goes = λ i.
          (erase_lem v topic).1 topic
          ∙ if_pos (bytes_discrete topic topic) refl none (find topic e.topic_queues);
    }
      where
        other : (j : Bytes) → Stays now j e → ¬ (topic ≡ j)
        other j u p =
            unused (is_active topic e) (is_stale now topic e) a s
              (subst (λ t. Stays now t e) (sym p) u)

        nothing : {j : Bytes} (d : Dec (topic ≡ j)) (o : Option ℕ) → o ≡ none → ite d none o ≡ none
        nothing (yes p) o g = refl
        nothing (no n) o g = g

collected :
    (k now : ℕ) (queues : List (Bytes × ℕ)) (e : Engine)
    → IsValid k e.topic_queues
    → let e' = collect now queues e in
      IsValid k e'.topic_queues
      × ((j : Bytes) → Stays now j e → find j e'.topic_queues ≡ find j e.topic_queues)
      × ((j : Bytes) → find j e.topic_queues ≡ none → find j e'.topic_queues ≡ none)
      × ((j : Bytes)
          → Goes now j e
          → contains j (map (λ q. q.0) queues) ≡ true
          → find j e'.topic_queues ≡ none)
unfolding collect
collected k now [] e v = (v, λ j u. refl, λ j g. g, λ j i h. ground arith)
collected k now ((topic, p) ∷ queues) e v =
    let w = visit-Visited k now topic e v in
    let e₁ = visit now topic e in
    let (v', used, gone, idle) = collected k now queues e₁ w.stays_valid in
    (
      v',
      λ j u. used j (w.stays_used j u) ∙ w.stays_there j u,
      λ j g. gone j (w.stays_gone j g),
      λ j i h. elim (bytes_discrete topic j) [
        | yes q ↦ gone j (
            subst (λ t. find t e₁.topic_queues ≡ none) q
              (w.goes (subst (λ t. Goes now t e) (sym q) i)))
        | no n ↦
            idle j (w.stays_idle j n i) (
              sym (if_neg (bytes_discrete topic j) n true (contains j (map (λ q. q.0) queues))) ∙ h)
      ],
    )

-- The garbage collection of the monitor on the queues of a snapshot: the map stays valid; a topic
-- that some module subscribes to or produces, or whose queue was never used, or was used within
-- the time to live, keeps its queue; and a topic in the snapshot that no module subscribes to or
-- produces, and whose queue was used, but longer ago than the time to live, loses it.
pub collect_lem :
    (k now : ℕ) (queues : List (Bytes × ℕ)) (e : Engine)
    → IsValid k e.topic_queues
    → let e' = collect now queues e in
      IsValid k e'.topic_queues
      × ((j : Bytes) → InUse now j e → find j e'.topic_queues ≡ find j e.topic_queues)
      × ((j : Bytes)
          → Idle now j e
          → contains j (map (λ q. q.0) queues) ≡ true
          → find j e'.topic_queues ≡ none)
collect_lem k now queues e v =
    let r = collected k now queues e v in
    (r.0, λ j u. r.1 j (InUse-Stays now j e u), λ j i. r.3 j (Idle-Goes now j e i))
