-- ===== src/Engine/Events/Usage.antt =====
-- src/tyche/cpp/engine/engine.cpp: which topic queues are in use, for the garbage collection.
use tyche_engine.Common.{
  ℕ, ◌+◌, ◌<◌, ◌≤◌, ◌≡◌, ◌≢◌, ◌⊎◌, refl, ap₂, ◌∙◌, arith, Bool, true, false, List, [], ◌∷◌, ◌||◌,
  not, if_pos, if_neg, Bytes, bytes_discrete, inl, inr,
}
use tyche_engine.ShardedMap.{last_access}
use tyche_engine.Engine.{Engine}
use tyche_engine.Intern
use tyche_engine.Common.Members.{contains}
use tyche_engine.Engine.Events.{active_of, is_active, is_stale}

-- What the tests of the code say of a queue that stays, and of one that goes.
abbrev pub Stays : ℕ → Bytes → Engine → Type 0
Stays now topic e = (is_active topic e || not (is_stale now topic e)) ≡ true

abbrev pub Goes : ℕ → Bytes → Engine → Type 0
Goes now topic e = (is_active topic e ≡ false) × (is_stale now topic e ≡ true)

-- Some module is in a list of the table under a number of the topic.
abbrev pub IsListed : Bytes → Engine → List (ℕ × List Bytes) → Type 0
IsListed topic e [] = ⊥
IsListed topic e ((id, mids) ∷ m) =
    ((Intern.resolve id e.interned ≡ topic) × (mids ≢ [])) ⊎ IsListed topic e m

-- A queue that is in use: some module subscribes to the topic or produces it, or the queue was
-- never used, or within the time to live.
abbrev pub InUse : ℕ → Bytes → Engine → Type 0
InUse now topic e =
    IsListed topic e e.topic_subscribers
    ⊎ IsListed topic e e.topic_producers
    ⊎ (last_access topic e.topic_queues ≡ 0)
    ⊎ (now ≤ last_access topic e.topic_queues + e.topic_queue_ttl)

-- A queue that is not: no module subscribes to the topic, none produces it, and the queue was used,
-- but longer ago than the time to live.
abbrev pub Idle : ℕ → Bytes → Engine → Type 0
Idle now topic e =
    ¬ IsListed topic e e.topic_subscribers
    × ¬ IsListed topic e e.topic_producers
    × (0 < last_access topic e.topic_queues)
    × (last_access topic e.topic_queues + e.topic_queue_ttl < now)

contains_head : (x y : Bytes) (ys : List Bytes) → y ≡ x → contains x (y ∷ ys) ≡ true
contains_head x y ys p = if_pos (bytes_discrete y x) p true (contains x ys)

contains_tail : (x y : Bytes) (ys : List Bytes) → contains x ys ≡ true → contains x (y ∷ ys) ≡ true
contains_tail x y ys h = ground arith

listed_active :
    (topic : Bytes) (e : Engine) (m : List (ℕ × List Bytes))
    → IsListed topic e m
    → contains topic (active_of e m) ≡ true
unfolding active_of
listed_active topic e [] h = absurd h
listed_active topic e ((id, []) ∷ m) (inl (p, n)) = absurd (n refl)
listed_active topic e ((id, []) ∷ m) (inr h) = listed_active topic e m h
listed_active topic e ((id, x ∷ xs) ∷ m) (inl (p, n)) =
    contains_head topic (Intern.resolve id e.interned) (active_of e m) p
listed_active topic e ((id, x ∷ xs) ∷ m) (inr h) =
    contains_tail topic (Intern.resolve id e.interned) (active_of e m) (listed_active topic e m h)

unlisted_inactive :
    (topic : Bytes) (e : Engine) (m : List (ℕ × List Bytes))
    → ¬ IsListed topic e m
    → contains topic (active_of e m) ≡ false
unfolding active_of
unlisted_inactive topic e [] n = refl
unlisted_inactive topic e ((id, []) ∷ m) n = unlisted_inactive topic e m (λ h. n (inr h))
unlisted_inactive topic e ((id, x ∷ xs) ∷ m) n =
    if_neg (bytes_discrete (Intern.resolve id e.interned) topic) (λ p. n (inl (p, λ q. cc))) true
      (contains topic (active_of e m))
    ∙ unlisted_inactive topic e m (λ h. n (inr h))

or-true_left : (a b : Bool) → a ≡ true → (a || b) ≡ true
or-true_left a b h = ground arith

or-true_right : (a b : Bool) → b ≡ true → (a || b) ≡ true
or-true_right a b h = ground arith

fresh_not_stale :
    (now : ℕ) (topic : Bytes) (e : Engine)
    → (last_access topic e.topic_queues ≡ 0)
      ⊎ (now ≤ last_access topic e.topic_queues + e.topic_queue_ttl)
    → not (is_stale now topic e) ≡ true
unfolding is_stale
fresh_not_stale now topic e (inl h) = ground arith
fresh_not_stale now topic e (inr h) = ground arith

pub InUse-Stays : (now : ℕ) (topic : Bytes) (e : Engine) → InUse now topic e → Stays now topic e
unfolding is_active
InUse-Stays now topic e (inl h) =
    or-true_left _ _ (or-true_left _ _ (listed_active topic e e.topic_subscribers h))
InUse-Stays now topic e (inr (inl h)) =
    or-true_left _ _ (or-true_right _ _ (listed_active topic e e.topic_producers h))
InUse-Stays now topic e (inr (inr h)) = or-true_right _ _ (fresh_not_stale now topic e h)

long_unused :
    (now : ℕ) (topic : Bytes) (e : Engine)
    → 0 < last_access topic e.topic_queues
    → last_access topic e.topic_queues + e.topic_queue_ttl < now
    → is_stale now topic e ≡ true
unfolding is_stale
long_unused now topic e p l = ground arith

pub Idle-Goes : (now : ℕ) (topic : Bytes) (e : Engine) → Idle now topic e → Goes now topic e
unfolding is_active
Idle-Goes now topic e (s, p, u, l) = (
  ap₂ ◌||◌ (unlisted_inactive topic e e.topic_subscribers s)
      (unlisted_inactive topic e e.topic_producers p),
  long_unused now topic e u l,
)
