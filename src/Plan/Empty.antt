-- ===== src/Plan/Empty.antt =====
-- When `build_plans` (backend/src/services/pipeline_plan.rs) refuses a workflow.
use overup.Prelude.{
  subst, sym, text_eq, ℕ, ◌+◌, ◌≡◌, ◌≢◌, ◌↔◌, refl, Bool, true, false, Option, none, some, List, [],
  ◌∷◌, if◌then◌else◌, All, all, is_empty, map, inl, inr, Bool-cases, Text, codes,
}
use overup.Workflow.{ParsedJob, ValidationStatus, status, errors, valid, warnings}
use overup.Workflow.Yaml.{Value, entries, key_name, Yaml}
use overup.Workflow.Triggers.{get_mapping}
use overup.Workflow.Parse.{Parsed, ParsedWorkflow, parse_and_validate}
use overup.Plan.{
  PlannedStep, Env, PlannedJob, plans, refused, invalid, no_runnable_jobs, env_map, get_text,
}
use overup.Plan.Steps.{put_step, plan_step, plan_steps}
use overup.Plan.Build.{
  document_of, has_no_steps, node_of, list_of, job_steps, job_plan, plan_job, plan_jobs,
  plan_parsed, build_plans,
}

is_empty-put :
    (own : Option PlannedStep) (steps : List PlannedStep)
    → (is_empty (put_step own steps) ≡ true) ↔ ((own ≡ none) × (is_empty steps ≡ true))
is_empty-put none steps = (λ e. (refl, e), λ (_, e). e)
is_empty-put (some step) steps = (λ e. cc e, λ (e, _). cc e)

map_iff :
    {A B : Type 0} (f : A → B) (t : B → Bool) (P : A → Type 0)
    → ((a : A) → (t (f a) ≡ true) ↔ P a)
    → (xs : List A) → (all t (map f xs) ≡ true) ↔ All P xs
map_iff f t P h [] = (λ _. tt, λ _. refl)
map_iff f t P h (x ∷ xs) =
    let (to, from) = map_iff f t P h xs in
    (
      λ e. elim (Bool-cases (t (f x))) [
        | inl hit ↦ ((h x).0 hit, to (rw hit at e))
        | inr miss ↦ cc (rw miss at e)
      ],
      λ (p, ps). rw ((h x).1 p) (from ps),
    )

abbrev is_named : Text → Option Text → Bool
is_named name none = false
is_named name (some key) = text_eq key name

abbrev pub named : Text → List (Value × Value) → Option Value
named name [] = none
named name ((key, body) ∷ rest) =
    let later = named name rest in if is_named name (key_name key) then some body else later

module _ (yaml : Yaml) where
  -- The step has a command, and does not use an action.
  abbrev pub Runs : Value → Type 0
  Runs step = (get_text yaml step (codes "uses") ≡ none) × (get_text yaml step (codes "run") ≢ none)

  plan_step-nothing :
      (index : ℕ) (step : Value) (uses run d : Option Text) (notices : List Text)
      → ((plan_step yaml index step uses run d notices).0 ≡ none)
        ↔ (¬ ((uses ≡ none) × (run ≢ none)))
  unfolding plan_step
  plan_step-nothing index step (some u) run d notices = (λ _ (e, _). cc e, λ _. refl)
  plan_step-nothing index step none none d notices = (λ _ (_, e). e refl, λ _. refl)
  plan_step-nothing index step none (some r) d notices =
      (λ e. cc e, λ f. absurd (f (refl, λ e. cc e)))

  plan_steps-nothing :
      (index : ℕ) (steps : List Value) (d : Option Text) (notices : List Text)
      → (is_empty (plan_steps yaml index steps d notices).0 ≡ true)
        ↔ All (λ step. ¬ Runs step) steps
  unfolding plan_steps
  plan_steps-nothing index [] d notices = (λ _. tt, λ _. refl)
  plan_steps-nothing index (step ∷ steps) d notices =
      let uses = get_text yaml step (codes "uses") in
      let run = get_text yaml step (codes "run") in
      let own = plan_step yaml index step uses run d notices in
      let (to, from) = plan_steps-nothing (index + 1) steps d own.1 in
      let (here, back) = plan_step-nothing index step uses run d notices in
      let (split, join) = is_empty-put own.0 (plan_steps yaml (index + 1) steps d own.1).0 in
      (
        λ e. (let (none_here, rest) = split e in (here none_here, to rest)),
        λ (n, ns). join (back n, from ns),
      )

  abbrev or_null : Option Value → Value
  or_null none = Value.null
  or_null (some v) = v

  -- The body of a job in the document, as the parser names jobs: the first entry of `jobs` whose key, text or
  -- boolean, prints as the name.
  abbrev pub body_of : Value → Text → Value
  body_of doc name = elim (yaml.as_mapping doc) [
    | none ↦ Value.null
    | some root ↦ elim (get_mapping yaml root (codes "jobs")) [
      | none ↦ Value.null
      | some jobs ↦ or_null (named name (entries jobs))
    ]
  ]

  -- The planner finds under the text of a job's name what the parser named so; it does not where the key is a
  -- boolean.
  abbrev pub IsFound : Value → ParsedJob → Type 0
  IsFound doc job = node_of yaml doc job.key ≡ body_of doc job.key

  -- The job calls a workflow, or no step of its body has a command and uses no action.
  abbrev pub RunsNothing : Value → ParsedJob → Type 0
  RunsNothing doc job =
      job.uses ≡ none → All (λ step. ¬ Runs step) (list_of yaml (body_of doc job.key))

  -- The same of the body that the planner finds.
  abbrev LooksIdle : Value → ParsedJob → Type 0
  LooksIdle doc job =
      job.uses ≡ none → All (λ step. ¬ Runs step) (list_of yaml (node_of yaml doc job.key))

  found_idle_iff :
      (doc : Value) (jobs : List ParsedJob)
      → All (IsFound doc) jobs
      → All (LooksIdle doc) jobs ↔ All (RunsNothing doc) jobs
  found_idle_iff doc [] f = (λ _. tt, λ _. tt)
  found_idle_iff doc (job ∷ jobs) (f, fs) =
      let (to, from) = found_idle_iff doc jobs fs in
      (
        λ (h, hs).
            (λ e. subst (λ node. All (λ step. ¬ Runs step) (list_of yaml node)) f (h e), to hs),
        λ (h, hs). (
          λ e. subst (λ node. All (λ step. ¬ Runs step) (list_of yaml node)) (sym f) (h e),
          from hs,
        ),
      )

  job_steps-nothing :
      (uses : Option Text) (node : Value) (d : Option Text) (notices : List Text)
      → (is_empty (job_steps yaml uses node d notices).0 ≡ true)
        ↔ (uses ≡ none → All (λ step. ¬ Runs step) (list_of yaml node))
  unfolding job_steps
  job_steps-nothing (some u) node d notices = (λ _ e. cc e, λ _. refl)
  job_steps-nothing none node d notices =
      let (to, from) = plan_steps-nothing 0 (list_of yaml node) d notices in
      (λ e _. to e, λ h. from (h refl))

  module _ (default_image : Text) (allowlist : List Text) where
    plan_job-nothing :
        (doc : Value) (root_env : Env) (job : ParsedJob)
        → (has_no_steps (plan_job yaml default_image allowlist doc root_env job) ≡ true)
          ↔ LooksIdle doc job
    unfolding plan_job job_plan
    plan_job-nothing doc root_env job = job_steps-nothing job.uses (node_of yaml doc job.key) _ _

    refuse_iff :
        (b : Bool) (ps : List PlannedJob)
        → ((if b then refused no_runnable_jobs else plans ps) ≡ refused no_runnable_jobs)
          ↔ (b ≡ true)
    refuse_iff true ps = (λ _. refl, λ _. refl)
    refuse_iff false ps = (λ e. cc e, λ e. cc e)

    never_invalid :
        (b : Bool) (ps : List PlannedJob)
        → (if b then refused no_runnable_jobs else plans ps) ≢ refused invalid
    never_invalid true ps e = cc e
    never_invalid false ps e = cc e

    plan_jobs_iff :
        (doc : Value) (jobs : List ParsedJob)
        → (plan_jobs yaml default_image allowlist doc jobs ≢ refused invalid)
          × ((plan_jobs yaml default_image allowlist doc jobs ≡ refused no_runnable_jobs)
              ↔ All (LooksIdle doc) jobs)
    unfolding plan_jobs
    plan_jobs_iff doc [] = (λ e. cc e, (λ _. tt, λ _. refl))
    plan_jobs_iff doc (job ∷ jobs) =
        let root_env = env_map yaml (yaml.value_get doc (codes "env")) in
        let planned = map (plan_job yaml default_image allowlist doc root_env) (job ∷ jobs) in
        let (to, from) =
          map_iff (plan_job yaml default_image allowlist doc root_env) has_no_steps (LooksIdle doc)
            (plan_job-nothing doc root_env) (job ∷ jobs) in
        let (shown, made) = refuse_iff (all has_no_steps planned) planned in
        (never_invalid (all has_no_steps planned) planned, (λ e. to (shown e), λ h. made (from h)))

    plan_parsed_iff :
        (s : ValidationStatus) (parsed : ParsedWorkflow) (doc : Value)
        → ((plan_parsed yaml default_image allowlist s parsed doc ≡ refused invalid) ↔ (s ≡ errors))
          × ((plan_parsed yaml default_image allowlist s parsed doc ≡ refused no_runnable_jobs)
              ↔ ((s ≢ errors) × All (LooksIdle doc) parsed.jobs))
    unfolding plan_parsed
    plan_parsed_iff errors parsed doc =
        ((λ _. refl, λ _. refl), (λ e. cc e, λ (f, _). absurd (f refl)))
    plan_parsed_iff valid parsed doc =
        let (never, (to, from)) = plan_jobs_iff doc parsed.jobs in
        ((λ e. absurd (never e), λ e. cc e), (λ e. (λ f. cc f, to e), λ (_, h). from h))
    plan_parsed_iff warnings parsed doc =
        let (never, (to, from)) = plan_jobs_iff doc parsed.jobs in
        ((λ e. absurd (never e), λ e. cc e), (λ e. (λ f. cc f, to e), λ (_, h). from h))

    -- Where the planner finds each parsed job under the text of its name, as it does unless a key is a boolean:
    -- a workflow is refused as invalid exactly when the parser reports an error, and as one without runnable
    -- jobs exactly when it reports none and each job calls a workflow or has no step, in its body in the
    -- document, with a command and without an action.
    pub build_plans-refused_iff :
        (from_str : Text → Parsed) (raw : Text)
        → All (IsFound (document_of (from_str raw))) (parse_and_validate yaml from_str raw).jobs
        → ((build_plans yaml default_image allowlist from_str raw ≡ refused invalid)
            ↔ (status (parse_and_validate yaml from_str raw).diagnostics ≡ errors))
          × ((build_plans yaml default_image allowlist from_str raw ≡ refused no_runnable_jobs) ↔ (
              (status (parse_and_validate yaml from_str raw).diagnostics ≢ errors)
              × All
                  (RunsNothing (document_of (from_str raw)))
                  (parse_and_validate yaml from_str raw).jobs))
    unfolding build_plans
    build_plans-refused_iff from_str raw found =
        let parsed = parse_and_validate yaml from_str raw in
        let (broken, (to, from)) = plan_parsed_iff _ parsed (document_of (from_str raw)) in
        let (seen, hidden) = found_idle_iff (document_of (from_str raw)) parsed.jobs found in
        (
          broken,
          (
            λ e. (let (fine, idle) = to e in (fine, seen idle)),
            λ (fine, idle). from (fine, hidden idle),
          ),
        )
