-- ===== src/Heartbeat/Silence.antt =====
-- How many ticks a silent module of heartbeat_manager.cpp lives.
use tyche_engine.Common.{
  ℕ, zero, suc, ◌+◌, ◌-◌, ◌^◌, ◌*◌, ◌≤◌, ◌<◌, ◌≡◌, refl, sym, ap, subst, ◌∙◌, arith, true, Option,
  none, some, if_pos, Bytes, bytes_discrete, ltb, Option-cases, inl, inr, dec_lt, lt→ltb,
}
use tyche_engine.Common.Assoc
use tyche_engine.Common.Assoc.{NodupKeys}
use tyche_engine.Common.Words.{pos, ◌-ℤ◌}
use tyche_engine.Heartbeat.{
  HeartbeatMonitor, HeartbeatManager, to_int, tick, twice, register_module, update, update_monitor,
  tick_all, is_registered, is_some,
}
use tyche_engine.Heartbeat.Expiry.{IsValid, monitor, survives, tick_all_lem}

register_module-new :
    (now : ℕ) (mid : Bytes) (m : HeartbeatManager)
    → monitor mid m ≡ none
    → register_module now mid m ≡ record m {
      monitors =
          Assoc.assign bytes_discrete mid
            (record { liveness = twice m.liveness; last_seen = now; interval = m.interval })
            m.monitors;
    }
unfolding register_module
register_module-new now mid m e = rw (e, register_module)

update-old :
    (now : ℕ) (mid : Bytes) (m : HeartbeatManager) (h : HeartbeatMonitor)
    → monitor mid m ≡ some h
    → update now mid m ≡ record m {
      monitors = Assoc.assign bytes_discrete mid (update_monitor now m.liveness h) m.monitors;
    }
unfolding update
update-old now mid m h e = rw (e, update)

-- The monitor of a module after some ticks with no heartbeat.
abbrev pub ticks : ℕ → HeartbeatManager → HeartbeatManager
ticks zero m = m
ticks (suc n) m = (tick_all (ticks n m)).1

-- A module `n` ticks after a heartbeat that gave it `l` of them.
record After (n l : ℕ) (o : Option HeartbeatMonitor) : Type 0 where
  live : n < l → (h : HeartbeatMonitor) × (o ≡ some h) × (h.liveness ≡ pos (l - n))
  dead : l ≤ n → o ≡ none

to_int-small : (n : ℕ) → n < 2 ^ 31 → to_int (pos n) ≡ pos n
unfolding to_int
to_int-small n h = ground arith

survives-some :
    (h : HeartbeatMonitor) (k : ℕ)
    → k + 2 < 2 ^ 31
    → h.liveness ≡ pos (suc (suc k))
    → (survives (some h) ≡ some (tick h)) × ((tick h).liveness ≡ pos (suc k))
unfolding tick ◌-ℤ◌
survives-some h k b e = (ground (arith, to_int-small (suc k)), ground (arith, to_int-small (suc k)))

survives-last : (h : HeartbeatMonitor) → h.liveness ≡ pos 1 → survives (some h) ≡ none
unfolding tick ◌-ℤ◌
survives-last h e = ground (arith, to_int-small 0)

After-step :
    (n l : ℕ) (o : Option HeartbeatMonitor)
    → l < 2 ^ 31
    → After n l o
    → After (suc n) l (survives o)
After-step n l o b a = record {
  live = λ less.
      let (h, e, p) = a.live (omega arith) in
      let (q, r) = survives-some h (l - n - 2) (omega arith) (p ∙ ap pos (omega arith)) in
      (tick h, ap survives e ∙ q, r ∙ ap pos (omega arith));
  dead = λ more. elim (dec_lt n l) [
    | yes last ↦
        let (h, e, p) = a.live last in ap survives e ∙ survives-last h (p ∙ ap pos (omega arith))
    | no past ↦ ap survives (a.dead (omega arith))
  ];
}

module _ (l : ℕ) (b : l < 2 ^ 31) (mid : Bytes) (m : HeartbeatManager) (v : IsValid m)
    (start : After 0 l (monitor mid m)) where
  ticks-After : (n : ℕ) → IsValid (ticks n m) × After n l (monitor mid (ticks n m))
  ticks-After zero = (v, start)
  ticks-After (suc n) =
      let (w, a) = ticks-After n in
      let (w', c, e) = tick_all_lem (ticks n m) w in
      (w', subst (After (suc n) l) (sym (e mid)) (After-step n l _ b a))

  is_registered-ticks : (n : ℕ) → is_registered mid (ticks n m) ≡ ltb n l
  unfolding is_registered
  is_registered-ticks n = elim (dec_lt n l) [
    | yes less ↦ let (h, e, p) = (ticks-After n).1.live less in ap is_some e ∙ sym (lt→ltb n l less)
    | no past ↦ ap is_some ((ticks-After n).1.dead (omega arith)) ∙ ground arith
  ]

monitor-assign :
    (mid : Bytes) (h : HeartbeatMonitor) (m : HeartbeatManager)
    → Assoc.lookup bytes_discrete mid (Assoc.assign bytes_discrete mid h m.monitors) ≡ some h
monitor-assign mid h m =
    Assoc.lookup-assign bytes_discrete mid mid h m.monitors
    ∙ if_pos (bytes_discrete mid mid) refl (some h) _

-- The monitor that a heartbeat or a registration leaves.
fresh_After :
    (l : ℕ) (h : HeartbeatMonitor) (o : Option HeartbeatMonitor)
    → 0 < l
    → h.liveness ≡ pos l
    → o ≡ some h
    → After 0 l o
fresh_After l h o p e q = record {
  live = λ less. (h, q, e ∙ ap pos (omega arith));
  dead = λ more. absurd (omega arith);
}

-- With a positive liveness `l` below 2^30, twice which fits an `int`, a module that is not monitored,
-- registers, and is never heard of again is still registered after `n` ticks exactly if `n` is less
-- than twice `l`.
pub silent_module :
    (l now : ℕ) (mid : Bytes) (m : HeartbeatManager)
    → IsValid m
    → 0 < l
    → l < 2 ^ 30
    → m.liveness ≡ pos l
    → monitor mid m ≡ none
    → (n : ℕ) → is_registered mid (ticks n (register_module now mid m)) ≡ ltb n (l * 2)
silent_module l now mid m v p b e absent n =
    is_registered-ticks (l * 2) (omega arith) mid (register_module now mid m)
      (subst IsValid (sym made) (Assoc.assign-NodupKeys bytes_discrete mid first m.monitors v))
      (fresh_After (l * 2) first _ (omega arith) (ap twice e ∙ to_int-small (l * 2) (omega arith))
        (ap (monitor mid) made ∙ monitor-assign mid first m))
      n
  where
    first : HeartbeatMonitor
    first = record { liveness = twice m.liveness; last_seen = now; interval = m.interval }

    made :
        register_module now mid m
        ≡ record m { monitors = Assoc.assign bytes_discrete mid first m.monitors }
    made = register_module-new now mid m absent

-- With a positive liveness `l` of an `int`, a monitored module that is heard of and then never again is still
-- registered after `n` ticks exactly if `n` is less than `l`.
pub silent_after_update :
    (l now : ℕ) (mid : Bytes) (m : HeartbeatManager)
    → IsValid m
    → 0 < l
    → l < 2 ^ 31
    → m.liveness ≡ pos l
    → is_registered mid m ≡ true
    → (n : ℕ) → is_registered mid (ticks n (update now mid m)) ≡ ltb n l
unfolding is_registered
silent_after_update l now mid m v p b e here n = elim (Option-cases (monitor mid m)) [
  | inl q ↦ cc
  | inr (h, q) ↦
      let made = update-old now mid m h q in
      is_registered-ticks l b mid (update now mid m)
        (subst IsValid (sym made) (Assoc.assign-NodupKeys bytes_discrete mid _ m.monitors v))
        (fresh_After l (update_monitor now m.liveness h) _ p e
          (ap (monitor mid) made ∙ monitor-assign mid _ m))
        n
]
