-- ===== src/Db/Creation/Tests.antt =====
-- Two pipelines of one repository, and the theorems on creation at them.
use overup.Prelude.{◌+◌, ◌≡◌, refl, inr, none, some, List, [], ◌∷◌, map, Text, codes}
use overup.Db.Rows.{Pipeline, Job}
use overup.Plan.{PlannedJob}
use overup.Db.Creation.{
  NewPipeline, Store, created, existing, rejected, find_existing, new_row, job_rows, has_duplicates,
  commit, insert, create,
}
use overup.Db.Creation.Once.{IsNumbered, start, more, Creates-IsNumbered}
use overup.Db.Creation.Retried.{create_again}

abbrev nothing : Store
nothing = record { pipelines = []; jobs = []; counters = λ _. none; events = []; audit = [] }

abbrev of_delivery : Text → NewPipeline
of_delivery delivery = record {
  workspace_id = 1;
  repository_id = 2;
  workflow_id = 3;
  webhook_delivery_id = some delivery;
  timeout_seconds = 3600;
  job_timeout_seconds = 600;
}

abbrev job : Text → PlannedJob
job key = record {
  key = key;
  name = none;
  runs_on = [];
  needs = [];
  plan = record { image = codes "debian"; env = []; steps = []; environment = none; notices = [] };
  position = 0;
}

abbrev build_and_test : List PlannedJob
build_and_test = job (codes "build") ∷ job (codes "test") ∷ []

abbrev once : Store
once = (create (of_delivery (codes "a")) build_and_test 10 (λ i. 100 + i) 9 nothing nothing).1

abbrev twice : Store
twice = (create (of_delivery (codes "b")) build_and_test 11 (λ i. 200 + i) 9 nothing once).1

numbers_grow : map (λ p. p.number) twice.pipelines ≡ 2 ∷ 1 ∷ []
unfolding create insert commit find_existing has_duplicates
numbers_grow = refl

-- Two jobs with one key violate a constraint, and nothing is stored.
same_keys_are_rejected :
    create
      (of_delivery (codes "a"))
      (job (codes "true") ∷ job (codes "true") ∷ [])
      10
      (λ i. i)
      9
      nothing
      nothing
    ≡ (rejected, nothing)
unfolding create insert find_existing has_duplicates
same_keys_are_rejected = refl

nothing-IsNumbered : IsNumbered nothing
nothing-IsNumbered = record { given = tt; apart = tt; positive = λ r n e. cc e; jobs = tt }

Creates-IsNumbered_example : IsNumbered twice
Creates-IsNumbered_example =
    Creates-IsNumbered
      (more (more start (of_delivery (codes "a")) build_and_test 10 (λ i. 100 + i) 9 nothing)
        (of_delivery (codes "b")) build_and_test 11 (λ i. 200 + i) 9 nothing)
      nothing-IsNumbered

abbrev first_row : Pipeline
first_row = new_row (of_delivery (codes "a")) 10 1 9

abbrev first_jobs : List Job
first_jobs = job_rows (of_delivery (codes "a")) (λ i. 100 + i) 10 9 build_and_test

first_made :
    create (of_delivery (codes "a")) build_and_test 10 (λ i. 100 + i) 9 nothing nothing
    ≡ (created first_row first_jobs, once)
unfolding create insert commit find_existing has_duplicates
first_made = refl

nothing_there : find_existing (of_delivery (codes "a")) nothing ≡ none
unfolding find_existing
nothing_there = refl

-- The second try races: its first query sees no row.
create_again_example :
    create (of_delivery (codes "a")) build_and_test 12 (λ i. 300 + i) 20 nothing twice
    ≡ (existing first_row, twice)
create_again_example =
    create_again (of_delivery (codes "a")) build_and_test build_and_test 10 12 (λ i. 100 + i)
      (λ i. 300 + i) 9 20 nothing nothing nothing once twice (codes "a") first_row first_jobs
      nothing-IsNumbered refl first_made
      (more start (of_delivery (codes "b")) build_and_test 11 (λ i. 200 + i) 9 nothing)
      (inr nothing_there)
