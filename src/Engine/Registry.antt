-- ===== src/Engine/Registry.antt =====
-- src/tyche/cpp/engine/engine.cpp: what is left of a module that was unregistered.
use tyche_engine.Common.{
  ℕ, ◌≡◌, refl, ap, ◌∙◌, arith, false, Option, none, some, List, [], ◌∷◌, ite, if_pos, Bytes,
  bytes_discrete,
}
use tyche_engine.Common.Assoc
use tyche_engine.Common.Members.{contains, remove, contains-remove}
use tyche_engine.Types.{ModuleInfo}
use tyche_engine.Engine.{Engine, JobTrackingInfo, names_at, delist, orphan_jobs, unregister_module}

names_at-delist :
    (mid : Bytes) (id : ℕ) (m : List (ℕ × List Bytes))
    → names_at id (delist mid m) ≡ remove mid (names_at id m)
unfolding delist Assoc.lookup remove
names_at-delist mid id [] = refl
names_at-delist mid id ((i, xs) ∷ m) = ground (arith, names_at-delist mid id m)

not-in-delist :
    (mid : Bytes) (id : ℕ) (m : List (ℕ × List Bytes))
    → contains mid (names_at id (delist mid m)) ≡ false
not-in-delist mid id m =
    ap (contains mid) (names_at-delist mid id m)
    ∙ contains-remove mid mid (names_at id m)
    ∙ if_pos (bytes_discrete mid mid) refl false (contains mid (names_at id m))

the : {A : Type 0} → A → Option A → A
the a none = a
the a (some b) = b

orphan-handler :
    (mid : Bytes) (i : JobTrackingInfo)
    → ¬ ([] ≡ mid)
    → ¬ (
        (ite
          (bytes_discrete i.handler_id mid)
          (record i { handler_id = []; dispatch_time = 0 })
          i).handler_id
        ≡ mid)
orphan-handler mid i n = free (bytes_discrete i.handler_id mid)
  where
    free :
        (d : Dec (i.handler_id ≡ mid))
        → ¬ ((ite d (record i { handler_id = []; dispatch_time = 0 }) i).handler_id ≡ mid)
    free (yes p) = n
    free (no q) = q

-- No tracked job is left with the handler.
orphan_jobs-handler :
    (mid c : Bytes) (job : JobTrackingInfo) (jobs : List (Bytes × JobTrackingInfo))
    → ¬ ([] ≡ mid)
    → Assoc.lookup bytes_discrete c (orphan_jobs mid jobs) ≡ some job
    → ¬ (job.handler_id ≡ mid)
unfolding orphan_jobs Assoc.lookup the
orphan_jobs-handler mid c job [] n p q = ground arith
orphan_jobs-handler mid c job ((d, i) ∷ jobs) n p q =
    here (bytes_discrete d c) p (λ p'. orphan_jobs-handler mid c job jobs n p' q)
  where
    first : JobTrackingInfo
    first =
        ite (bytes_discrete i.handler_id mid) (record i { handler_id = []; dispatch_time = 0 }) i

    here :
        (e : Dec (d ≡ c))
        → ite e (some first) (Assoc.lookup bytes_discrete c (orphan_jobs mid jobs)) ≡ some job
        → ¬ (Assoc.lookup bytes_discrete c (orphan_jobs mid jobs) ≡ some job)
        → ⊥
    here (yes r) s t = orphan-handler mid i n (ap (λ o. (the job o).handler_id) s ∙ q)
    here (no r) s t = t s

-- After a registered module with a non-empty name was unregistered, it is registered no more, it
-- is in no list of subscribers, of producers or of handlers, and no tracked job has it as its
-- handler.
pub unregister_module_lem :
    (mid : Bytes) (info : ModuleInfo) (e : Engine)
    → Assoc.lookup bytes_discrete mid e.modules ≡ some info
    → ¬ ([] ≡ mid)
    → let e' = unregister_module mid e in
      (Assoc.lookup bytes_discrete mid e'.modules ≡ none)
      × ((id : ℕ)
          → (contains mid (names_at id e'.topic_subscribers) ≡ false)
            × (contains mid (names_at id e'.topic_producers) ≡ false)
            × (contains mid (names_at id e'.job_handlers) ≡ false))
      × ((c : Bytes) (job : JobTrackingInfo)
          → Assoc.lookup bytes_discrete c e'.job_tracking ≡ some job
          → ¬ (job.handler_id ≡ mid))
unfolding unregister_module
unregister_module_lem mid info e p n =
    rw (p, unregister_module)
      (
        Assoc.lookup-erase bytes_discrete mid mid e.modules
            ∙ if_pos (bytes_discrete mid mid) refl none (Assoc.lookup bytes_discrete mid e.modules),
        λ id. (
          not-in-delist mid id e.topic_subscribers,
          not-in-delist mid id e.topic_producers,
          not-in-delist mid id e.job_handlers,
        ),
        λ c job q. orphan_jobs-handler mid c job e.job_tracking n q,
      )
