-- ===== src/ShardedMap/Finite.antt =====
-- sharded_topic_map.cpp as a finite map: what every operation does to `find` and `last_access`.
use tyche_engine.Common.{
  ℕ, ◌≡◌, refl, sym, ap, subst, ◌∙◌, true, false, Option, none, some, List, [], ◌∷◌, ◌++◌, get_or,
  ite, if_neg, Bytes, bytes_discrete, ℕ_discrete, Option-cases, inl, inr,
}
use tyche_engine.Common.Assoc
use tyche_engine.Common.Assoc.{AllKeys, NodupKeys}
use tyche_engine.ShardedMap.{
  Bucket, ShardedMap, no_bucket, bucket_index, bucket_of, set_bucket, find, get_or_create, erase,
  touch, last_access, or_else,
}
use tyche_engine.ShardedMap.Homed.{
  HasIndex, IsHome, IsValid, IsHome-bucket_of, bucket_of-set_bucket_ne, bucket_of-set_bucket_eq,
  set_bucket-IsValid,
}

abbrev times : {Q : Type 0} → Bytes → ShardedMap Q → Option ℕ
times t m = Assoc.lookup bytes_discrete t (bucket_of m t).last_access_times

module _ {Q : Type 0} {k : ℕ} {m : ShardedMap Q} (v : IsValid k m) (topic : Bytes) where
  -- A change of one topic's bucket that shows only at that topic, shows only there in the map.
  only_there :
      {V : Type 0} (part : Bucket Q → List (Bytes × V)) (b : Bucket Q) (new : Option V) (j : Bytes)
      → Assoc.lookup bytes_discrete j (part b)
        ≡ ite
            (bytes_discrete topic j)
            new
            (Assoc.lookup bytes_discrete j (part (bucket_of m topic)))
      → Assoc.lookup bytes_discrete j (part (bucket_of (set_bucket m topic b) j))
        ≡ ite (bytes_discrete topic j) new (Assoc.lookup bytes_discrete j (part (bucket_of m j)))
  only_there part b new j h = elim (ℕ_discrete (bucket_index m topic) (bucket_index m j)) [
    | yes e ↦
        ap (λ c. Assoc.lookup bytes_discrete j (part c)) (bucket_of-set_bucket_eq v topic b j e)
        ∙ h
        ∙ ap
            (λ i.
              ite (bytes_discrete topic j) new
                (Assoc.lookup bytes_discrete j (part (get_or m.buckets i no_bucket))))
            e
    | no n ↦
        ap (λ c. Assoc.lookup bytes_discrete j (part c)) (bucket_of-set_bucket_ne v topic b j n)
        ∙ sym (
            if_neg (bytes_discrete topic j) (λ p. n (ap (bucket_index m) p)) new
              (Assoc.lookup bytes_discrete j (part (bucket_of m j))))
  ]

  home : IsHome m.bucket_mask (bucket_index m topic) (bucket_of m topic)
  home = IsHome-bucket_of v topic

  indexed : HasIndex m.bucket_mask (bucket_index m topic) topic
  unfolding bucket_index
  indexed = refl

  -- A change of a bucket that leaves what a part of it says of `j`.
  same_part :
      {V : Type 0} (part : Bucket Q → List (Bytes × V)) (b : Bucket Q) (j : Bytes)
      → Assoc.lookup bytes_discrete j (part b)
        ≡ Assoc.lookup bytes_discrete j (part (bucket_of m topic))
      → Assoc.lookup bytes_discrete j (part (bucket_of (set_bucket m topic b) j))
        ≡ Assoc.lookup bytes_discrete j (part (bucket_of m j))
  same_part part b j h = elim (ℕ_discrete (bucket_index m topic) (bucket_index m j)) [
    | yes e ↦
        ap (λ c. Assoc.lookup bytes_discrete j (part c)) (bucket_of-set_bucket_eq v topic b j e)
        ∙ h
        ∙ ap (λ i. Assoc.lookup bytes_discrete j (part (get_or m.buckets i no_bucket))) e
    | no n ↦
        ap (λ c. Assoc.lookup bytes_discrete j (part c)) (bucket_of-set_bucket_ne v topic b j n)
  ]

  -- Times are read through a default.
  through_default :
      (b : Bucket Q) (new : Option ℕ) (j : Bytes)
      → Assoc.lookup bytes_discrete j b.last_access_times
        ≡ ite
            (bytes_discrete topic j)
            new
            (Assoc.lookup bytes_discrete j (bucket_of m topic).last_access_times)
      → or_else
          (Assoc.lookup bytes_discrete j (bucket_of (set_bucket m topic b) j).last_access_times)
          0
        ≡ ite
            (bytes_discrete topic j)
            (or_else new 0)
            (or_else (Assoc.lookup bytes_discrete j (bucket_of m j).last_access_times) 0)
  through_default b new j h =
      ap (λ o. or_else o 0) (only_there (λ c. c.last_access_times) b new j h)
      ∙ pushed (bytes_discrete topic j)
          (Assoc.lookup bytes_discrete j (bucket_of m j).last_access_times)
    where
      pushed :
          (d : Dec (topic ≡ j)) (o : Option ℕ)
          → or_else (ite d new o) 0 ≡ ite d (or_else new 0) (or_else o 0)
      pushed (yes p) o = refl
      pushed (no n) o = refl

  -- Erasing a topic from a valid map leaves a valid map that has neither a queue nor an access
  -- time for the topic, and for each other topic the same ones as before.
  pub erase_lem :
      IsValid k (erase topic m)
      × ((j : Bytes) → find j (erase topic m) ≡ ite (bytes_discrete topic j) none (find j m))
      × ((j : Bytes)
          → last_access j (erase topic m) ≡ ite (bytes_discrete topic j) 0 (last_access j m))
  unfolding erase find last_access
  erase_lem = (
    set_bucket-IsValid v topic _ (record {
      entries_here = Assoc.erase-AllKeys bytes_discrete _ topic _ home.entries_here;
      times_here = Assoc.erase-AllKeys bytes_discrete _ topic _ home.times_here;
      entries_once = Assoc.erase-NodupKeys bytes_discrete topic _ home.entries_once;
    }),
    λ j. only_there (λ c. c.entries) _ none j (Assoc.lookup-erase bytes_discrete j topic _),
    λ j. through_default _ none j (Assoc.lookup-erase bytes_discrete j topic _),
  )

  -- Touching a topic of a valid map sets the access time of this topic only, changes no queue, and
  -- leaves the map valid.
  pub touch_lem :
      (now : ℕ)
      → IsValid k (touch topic now m)
        × ((j : Bytes) → find j (touch topic now m) ≡ find j m)
        × ((j : Bytes)
            → last_access j (touch topic now m)
              ≡ ite (bytes_discrete topic j) now (last_access j m))
  unfolding touch find last_access
  touch_lem now = (
    set_bucket-IsValid v topic _ (record {
      entries_here = home.entries_here;
      times_here = Assoc.assign-AllKeys bytes_discrete _ topic now _ indexed home.times_here;
      entries_once = home.entries_once;
    }),
    λ j. same_part (λ c. c.entries) _ j refl,
    λ j. through_default _ (some now) j (Assoc.lookup-assign bytes_discrete j topic now _),
  )

  -- What `get_or_create` does if the topic is there, and if it is not.
  old_topic :
      (fresh q : Q) (out : ℕ)
      → Assoc.lookup bytes_discrete topic (bucket_of m topic).entries ≡ some q
      → ((get_or_create topic fresh out m).queue ≡ q)
        × ((get_or_create topic fresh out m).after ≡ m)
        × ((get_or_create topic fresh out m).made ≡ false)
  unfolding get_or_create
  old_topic fresh q out e = (rw (e, get_or_create), rw (e, get_or_create), rw (e, get_or_create))

  -- The bucket with a queue more.
  abbrev grown : Q → Bucket Q
  grown fresh = record {
    entries = (bucket_of m topic).entries ++ ((topic, fresh) ∷ []);
    last_access_times = (bucket_of m topic).last_access_times ++ ((topic, 0) ∷ []);
  }

  new_topic :
      (fresh : Q) (out : ℕ)
      → Assoc.lookup bytes_discrete topic (bucket_of m topic).entries ≡ none
      → ((get_or_create topic fresh out m).queue ≡ fresh)
        × ((get_or_create topic fresh out m).after ≡ set_bucket m topic (grown fresh))
        × ((get_or_create topic fresh out m).made ≡ true)
  unfolding get_or_create
  new_topic fresh out e = (rw (e, get_or_create), rw (e, get_or_create), rw (e, get_or_create))

  grown-IsValid :
      (fresh : Q)
      → Assoc.lookup bytes_discrete topic (bucket_of m topic).entries ≡ none
      → IsValid k (set_bucket m topic (grown fresh))
  grown-IsValid fresh e = set_bucket-IsValid v topic (grown fresh) (record {
    entries_here =
        Assoc.AllKeys-append bytes_discrete _ _ ((topic, fresh) ∷ []) home.entries_here
          (indexed, tt);
    times_here =
        Assoc.AllKeys-append bytes_discrete _ _ ((topic, 0) ∷ []) home.times_here (indexed, tt);
    entries_once = Assoc.snoc-NodupKeys bytes_discrete topic fresh _ e home.entries_once;
  })

  last_access-grown :
      (fresh : Q) (j : Bytes) → last_access j (set_bucket m topic (grown fresh)) ≡ last_access j m
  unfolding last_access Assoc.lookup
  last_access-grown fresh j = elim (ℕ_discrete (bucket_index m topic) (bucket_index m j)) [
    | yes e ↦
        ap (λ c. or_else (Assoc.lookup bytes_discrete j c.last_access_times) 0)
          (bucket_of-set_bucket_eq v topic (grown fresh) j e)
        ∙ ap (λ o. or_else o 0)
            (Assoc.lookup-append bytes_discrete j (bucket_of m topic).last_access_times
              ((topic, 0) ∷ []))
        ∙ zero_last (Assoc.lookup bytes_discrete j (bucket_of m topic).last_access_times)
            (bytes_discrete topic j)
        ∙ ap
            (λ i.
              or_else
                (Assoc.lookup bytes_discrete j (get_or m.buckets i no_bucket).last_access_times) 0)
            e
    | no n ↦
        ap (λ c. or_else (Assoc.lookup bytes_discrete j c.last_access_times) 0)
          (bucket_of-set_bucket_ne v topic (grown fresh) j n)
  ]
    where
      zero_last :
          (o : Option ℕ) (d : Dec (topic ≡ j))
          → or_else (Assoc.or_then o (ite d (some 0) none)) 0 ≡ or_else o 0
      zero_last none (yes p) = refl
      zero_last none (no n) = refl
      zero_last (some t) d = refl

  -- On a valid map, `get_or_create` returns the queue of the topic, or else the new one, which it
  -- then has for this topic; the other topics keep their queues, no topic's access time changes,
  -- and the map stays valid.
  pub get_or_create_lem :
      (fresh : Q) (out : ℕ)
      → IsValid k (get_or_create topic fresh out m).after
        × ((get_or_create topic fresh out m).queue ≡ or_else (find topic m) fresh)
        × ((j : Bytes)
            → find j (get_or_create topic fresh out m).after
              ≡ ite (bytes_discrete topic j) (some (or_else (find topic m) fresh)) (find j m))
        × ((j : Bytes) → last_access j (get_or_create topic fresh out m).after ≡ last_access j m)
  unfolding find
  get_or_create_lem fresh out =
      elim (Option-cases (Assoc.lookup bytes_discrete topic (bucket_of m topic).entries)) [
        | inl e ↦
            let (a, b, c) = new_topic fresh out e in
            (
              subst (IsValid k) (sym b) (grown-IsValid fresh e),
              a ∙ sym (ap (λ o. or_else o fresh) e),
              λ j.
                  ap (find j) b
                  ∙ only_there (λ c. c.entries) (grown fresh) (some fresh) j
                      (Assoc.lookup-snoc bytes_discrete j topic fresh _ e)
                  ∙ ap (λ o. ite (bytes_discrete topic j) (some (or_else o fresh)) (find j m))
                      (sym e),
              λ j. ap (last_access j) b ∙ last_access-grown fresh j,
            )
        | inr (q, e) ↦
            let (a, b, c) = old_topic fresh q out e in
            (
              subst (IsValid k) (sym b) v,
              a ∙ sym (ap (λ o. or_else o fresh) e),
              λ j. ap (find j) b ∙ there j q e (bytes_discrete topic j),
              λ j. ap (last_access j) b,
            )
      ]
    where
      there :
          (j : Bytes) (q : Q)
          → Assoc.lookup bytes_discrete topic (bucket_of m topic).entries ≡ some q
          → (d : Dec (topic ≡ j))
          → find j m
            ≡ ite d
                (some
                  (or_else (Assoc.lookup bytes_discrete topic (bucket_of m topic).entries) fresh))
                (find j m)
      there j q e (yes p) =
          ap (λ i. find i m) (sym p) ∙ e ∙ ap (λ o. some (or_else o fresh)) (sym e)
      there j q e (no n) = refl
