-- ===== src/Platform/Executor/Traces.antt =====
-- The results of a custom command against a specification as a relation.
use text.Mathlib.Text.{◌==◌ as str_eq}
use text.Mathlib.TextEquality.{eq_iff}
use rose_esp.Prelude.{
  ℕ, suc, ◌≡◌, ◌≢◌, arith, refl, List, [], ◌∷◌, length, ap, ◌⊎◌, Bool-cases, inl, inr,
  if◌then◌else◌,
}
use rose_esp.Prelude.Result.{Error, Result, ok, err}
use rose_esp.Platform.Service.{Service}
use rose_esp.Platform.Executor.{Config, Step, Library, Env, Outcome, resolve_params}
use rose_esp.Platform.Executor.Steps.{
  StepResult, aborts, execute_step, execute_steps, execute_command,
}

-- The last result is an exception of a step whose `on_error` is "abort".
abbrev pub IsAborted : {F : Type 0} → List (Step F) → List (StepResult F) → Type 0
IsAborted (s ∷ steps) (r ∷ []) = (s.on_error ≡ "abort") × (e : Error) × (r.result ≡ err e)
IsAborted (s ∷ steps) (r ∷ later ∷ results) = IsAborted steps (later ∷ results)
IsAborted _ _ = ⊥

-- Every step has a result, or the last one is an exception that was to abort.
abbrev pub IsAnswered : {F : Type 0} → List (Step F) → List (StepResult F) → Type 0
IsAnswered steps results = (length results ≡ length steps) ⊎ IsAborted steps results

IsAnswered-cons :
    {F : Type 0} (s : Step F) (r : StepResult F) (steps : List (Step F))
    (results : List (StepResult F))
    → IsAnswered steps results
    → IsAnswered (s ∷ steps) (r ∷ results)
IsAnswered-cons s r steps results (inl e) = inl (ap suc e)
IsAnswered-cons s r [] [] (inr a) = elim a [ ]
IsAnswered-cons s r (t ∷ steps) [] (inr a) = elim a [ ]
IsAnswered-cons s r steps (later ∷ results) (inr a) = inr a

module _ {F : Type 0} (lib : Library F) {C : Type 0} (params : Config F) where
  -- A run of steps from number `i` on, from a context and a state of the service to the results and
  -- the service after it: each step runs from what the one before it left; one that returns, or
  -- raises where `on_error` is not "abort", is followed by the rest, and one that raises where it is
  -- "abort" is the last.
  pub data Trace : ℕ → List (Step F) → Env F C → List (StepResult F) → Service C → Type 0 where
    finished : {i : ℕ} {env : Env F C} → Trace i [] env [] env.service
    succeeded :
        {i : ℕ} {s : Step F} {steps : List (Step F)} {env env' : Env F C} {outcome : Outcome F}
        {results : List (StepResult F)} {service : Service C}
        → execute_step lib s.step_type (resolve_params lib.strip s.config params env.ctx) env
          ≡ (ok outcome, env')
        → Trace (suc i) steps env' results service
        → Trace i
            (s ∷ steps)
            env
            (record { step = i; step_type = s.step_type; result = ok outcome } ∷ results)
            service
    raised :
        {i : ℕ} {s : Step F} {steps : List (Step F)} {env env' : Env F C} {e : Error}
        {results : List (StepResult F)} {service : Service C}
        → execute_step lib s.step_type (resolve_params lib.strip s.config params env.ctx) env
          ≡ (err e, env')
        → s.on_error ≢ "abort"
        → Trace (suc i) steps env' results service
        → Trace i
            (s ∷ steps)
            env
            (record { step = i; step_type = s.step_type; result = err e } ∷ results)
            service
    aborted :
        {i : ℕ} {s : Step F} {steps : List (Step F)} {env env' : Env F C} {e : Error}
        → execute_step lib s.step_type (resolve_params lib.strip s.config params env.ctx) env
          ≡ (err e, env')
        → s.on_error ≡ "abort"
        → Trace i
            (s ∷ steps)
            env
            (record { step = i; step_type = s.step_type; result = err e } ∷ [])
            env'.service

  Trace-IsAnswered :
      {i : ℕ} {steps : List (Step F)} {env : Env F C} {results : List (StepResult F)}
      {service : Service C}
      → Trace i steps env results service
      → IsAnswered steps results
  Trace-IsAnswered finished = inl refl
  Trace-IsAnswered
        (succeeded {i = i} {s = s} {steps = steps} {outcome = outcome} {results = results} h t) =
      IsAnswered-cons s (record { step = i; step_type = s.step_type; result = ok outcome }) steps
        results (Trace-IsAnswered t)
  Trace-IsAnswered (raised {i = i} {s = s} {steps = steps} {e = e} {results = results} h n t) =
      IsAnswered-cons s (record { step = i; step_type = s.step_type; result = err e }) steps results
        (Trace-IsAnswered t)
  Trace-IsAnswered (aborted {e = e} h a) = inr (a, e, refl)

  -- The loop's choice for a step that ran.
  abbrev chosen :
      ℕ
      → Step F
      → Result (Outcome F)
      → Env F C
      → List (StepResult F) × Service C
      → List (StepResult F) × Service C
  chosen i s result env' rest =
      let entry : StepResult F = record { step = i; step_type = s.step_type; result = result } in
      if aborts result s.on_error then (entry ∷ [], env'.service) else (entry ∷ rest.0, rest.1)

  chosen-Trace :
      (i : ℕ) (s : Step F) (steps : List (Step F)) (env : Env F C) (result : Result (Outcome F))
      (env' : Env F C) (rest : List (StepResult F) × Service C)
      → execute_step lib s.step_type (resolve_params lib.strip s.config params env.ctx) env
        ≡ (result, env')
      → Trace (suc i) steps env' rest.0 rest.1
      → Trace i (s ∷ steps) env (chosen i s result env' rest).0 (chosen i s result env' rest).1
  chosen-Trace i s steps env (ok outcome) env' rest h t = succeeded h t
  chosen-Trace i s steps env (err e) env' rest h t = elim (Bool-cases (str_eq s.on_error "abort")) [
    | inl a ↦ rw (a, if◌then◌else◌) (aborted h ((eq_iff s.on_error "abort").0 a))
    | inr c ↦
        rw (c, if◌then◌else◌)
          (raised h (λ e. absurd (ground (arith, (eq_iff s.on_error "abort").1 e))) t)
  ]

  execute_steps-Trace :
      (i : ℕ) (steps : List (Step F)) (env : Env F C)
      → Trace i steps env
          (execute_steps lib i steps params env).0
          (execute_steps lib i steps params env).1
  unfolding execute_steps
  execute_steps-Trace i [] env = finished
  execute_steps-Trace i (s ∷ steps) env =
      let run =
        execute_step lib s.step_type (resolve_params lib.strip s.config params env.ctx) env in
      chosen-Trace i s steps env run.0 run.1 (execute_steps lib (suc i) steps params run.1) refl
        (execute_steps-Trace (suc i) steps run.1)

  -- A custom command runs its steps in order from an empty context, each from what the one before it
  -- left, and gives one result for each, numbered from 1, up to the first step that raises and whose
  -- `on_error` is "abort": this one is the last to run and to have a result. So either there are as
  -- many results as steps, or the last one is such an exception.
  pub execute_command-Trace :
      (steps : List (Step F)) (service : Service C)
      → let after = execute_command lib steps params service in
        Trace 1 steps (record { ctx = []; service = service }) after.0 after.1
        × IsAnswered steps after.0
  unfolding execute_command
  execute_command-Trace steps service =
      let t = execute_steps-Trace 1 steps (record { ctx = []; service = service }) in
      (t, Trace-IsAnswered t)
