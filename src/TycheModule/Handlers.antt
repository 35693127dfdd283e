-- ===== src/TycheModule/Handlers.antt =====
-- src/tyche/cpp/module.cpp: the handlers that a module has registered, and who is called.
use tyche_engine.Common.{
  ℕ, ◌+◌, ◌^◌, ◌<◌, ◌≡◌, ◌≢◌, refl, sym, ap, ◌∙◌, arith, Option, none, some, List, [], ite, if_pos,
  if_neg, if◌then◌else◌, ◌==◌, Bytes, bytes_discrete, ℕ_discrete, Option-cases, inl, inr,
}
use tyche_engine.Common.Assoc
use tyche_engine.Types.{InterfacePattern, DurabilityLevel}
use tyche_engine.Intern
use tyche_engine.Intern.{StringIntern, intern, resolve, or_invalid, invalid_id}
use tyche_engine.Intern.Stable.{IsValid, Interned, intern_lem}
use tyche_engine.Wire.{Fields}
use tyche_engine.TycheModule.{TycheModule, Outcome, job_event, register_job_handler, called}
use tyche_engine.TycheModule.Requests.{job_answer, job_payload, outcome_payload}

lookup-intern_ne :
    (k s : Bytes) (t : StringIntern)
    → ¬ (k ≡ s)
    → Intern.lookup s (intern k t).1 ≡ Intern.lookup s t
unfolding intern Intern.lookup
lookup-intern_ne k s t n = elim (Option-cases (Assoc.lookup bytes_discrete k t.string_to_id)) [
  | inl e ↦
      rw (e, intern)
        (ap or_invalid (
          Assoc.lookup-assign bytes_discrete s k t.next_id t.string_to_id
          ∙ if_neg (bytes_discrete k s) n _ _))
  | inr (id, e) ↦ rw (e, intern) refl
]

-- A map from identifiers, in which the identifier of a string is given a value.
module _ (k s : Bytes) (t : StringIntern) (v : IsValid t) (room : t.next_id + 1 < 2 ^ 32) where
  in_table : Interned k t (intern k t)
  in_table = intern_lem k t v room

  other_id : ¬ (k ≡ s) → (intern k t).0 ≢ Intern.lookup s t
  unfolding Intern.lookup
  other_id n = elim (Option-cases (Assoc.lookup bytes_discrete s t.string_to_id)) [
    | inl e ↦ λ p. omega (arith, in_table.not_invalid, p ∙ ap or_invalid e)
    | inr (id, e) ↦ λ p. n (
        sym in_table.resolves
        ∙ ap (λ i. resolve i (intern k t).1) (p ∙ ap or_invalid e)
        ∙ (in_table.kept s id e).1)
  ]

  pub lookup-registered :
      {A : Type 0} (a : A) (m : List (ℕ × A))
      → Assoc.lookup ℕ_discrete
          (Intern.lookup s (intern k t).1)
          (Assoc.assign ℕ_discrete (intern k t).0 a m)
        ≡ ite (bytes_discrete k s) (some a) (Assoc.lookup ℕ_discrete (Intern.lookup s t) m)
  lookup-registered a m = elim (bytes_discrete k s) [
    | yes e ↦
        Assoc.lookup-assign ℕ_discrete (Intern.lookup s (intern k t).1) (intern k t).0 a m
        ∙ if_pos (ℕ_discrete (intern k t).0 (Intern.lookup s (intern k t).1))
            (sym in_table.found ∙ ap (λ j. Intern.lookup j (intern k t).1) e) _ _
        ∙ sym (if_pos (bytes_discrete k s) e _ _)
    | no n ↦
        ap (λ i. Assoc.lookup ℕ_discrete i (Assoc.assign ℕ_discrete (intern k t).0 a m))
          (lookup-intern_ne k s t n)
        ∙ Assoc.lookup-assign ℕ_discrete (Intern.lookup s t) (intern k t).0 a m
        ∙ if_neg (ℕ_discrete (intern k t).0 (Intern.lookup s t)) (other_id n) _ _
        ∙ sym (if_neg (bytes_discrete k s) n _ _)
  ]

module _ {D F H : Type 0} (name : Bytes) (m : TycheModule D F H) (v : IsValid m.names)
    (room : m.names.next_id + 1 < 2 ^ 32) where
  abbrev guarded : Fields D F → ℕ → Option (Option H × InterfacePattern) → Option (H × Fields D F)
  guarded payload id x = if id == invalid_id then none else called payload x

  -- The same of a handler of jobs, with a valid table of names that has identifiers left: requests for
  -- its event are answered with what it makes of the payload, other requests as before.
  pub register_job_handler_lem :
      (f : Fields D F → Outcome D F) (durability : DurabilityLevel)
      → IsValid (register_job_handler name f durability m).names
        × ((event : Bytes) (payload : Fields D F)
            → job_answer event payload (register_job_handler name f durability m)
              ≡ ite
                  (bytes_discrete (job_event name) event)
                  (outcome_payload (f payload))
                  (job_answer event payload m))
  unfolding job_answer register_job_handler
  register_job_handler_lem f durability = (
    (in_table (job_event name) [] m.names v room).valid,
    λ event payload.
        ap (job_payload event payload)
          (lookup-registered (job_event name) event m.names v room f m.job_handlers)
        ∙ ite-job event payload,
  )
    where
      ite-job :
          (event : Bytes) (payload : Fields D F)
          → job_payload event payload (
              ite
                (bytes_discrete (job_event name) event)
                (some f)
                (Assoc.lookup ℕ_discrete (Intern.lookup event m.names) m.job_handlers))
            ≡ ite (bytes_discrete (job_event name) event) (outcome_payload (f payload)) (
                job_payload event payload
                  (Assoc.lookup ℕ_discrete (Intern.lookup event m.names) m.job_handlers))
      ite-job event payload = ground arith
