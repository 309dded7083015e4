-- ===== src/Turns/Calls.antt =====
-- Where the call with a number is: how often it stands among jobs, and among answers.
use polkadot_chat_agents.Base.JsMap
use polkadot_chat_agents.Base.JsMap.{JsMap, IsDistinct}
use polkadot_chat_agents.Base.MapSums.{sum_of, sum_of-set, sum_of-delete, value_at}
use polkadot_chat_agents.Turns.Queue.{
  Job, Outcome, stopped, of_peer, is_same, is_numbered, jobs_of, jobs_at, take_job, add_to,
  put_jobs, drop_found, drop_from,
}
use polkadot_chat_agents.Base.{
  ℕ, suc, ◌+◌, String, Bool, true, false, not, ◌&&◌, Option, none, some, List, [], ◌∷◌, ◌++◌, map,
  ◌≡◌, refl, ap, arith, ltb, ◌==◌, length, keep_if, if◌then◌else◌, Bool-cases, inl, inr,
}

abbrev pub weight : ℕ → Job → ℕ
weight n job = if is_numbered n job then 1 else 0

-- how many of the jobs are the call with the number `n`
abbrev pub tally : ℕ → List Job → ℕ
tally n [] = 0
tally n (j ∷ js) = weight n j + tally n js

-- how many of the answers are to the call with the number `n`
abbrev pub answers : ℕ → List (Job × Outcome) → ℕ
answers n [] = 0
answers n ((j, outcome) ∷ rest) = weight n j + answers n rest

-- a number that a call has got stands for one call
abbrev pub expected : ℕ → ℕ → ℕ
expected n next = if ltb n next then 1 else 0

pub expected-next :
    (n : ℕ) (job : Job) (next : ℕ)
    → job.number ≡ next
    → weight n job + expected n next ≡ expected n (next + 1)
expected-next n job next e = ground (arith, e)

pub tally-append : (n : ℕ) (xs ys : List Job) → tally n (xs ++ ys) ≡ tally n xs + tally n ys
tally-append n [] ys = omega arith
tally-append n (x ∷ xs) ys = omega (arith, tally-append n xs ys)

pub answers-append :
    (n : ℕ) (xs ys : List (Job × Outcome)) → answers n (xs ++ ys) ≡ answers n xs + answers n ys
answers-append n [] ys = omega arith
answers-append n ((j, outcome) ∷ xs) ys = omega (arith, answers-append n xs ys)

pub answers-stopped :
    (n : ℕ) (jobs : List Job) → answers n (map (λ j. (j, stopped)) jobs) ≡ tally n jobs
answers-stopped n [] = refl
answers-stopped n (j ∷ js) = ap (◌+◌ (weight n j)) (answers-stopped n js)

-- the others and the jobs of a peer, of a queue
pub tally-split :
    (n : ℕ) (k : String) (q : List Job)
    → tally n q ≡ tally n (keep_if (of_peer k) q) + tally n (keep_if (λ j. not (of_peer k j)) q)
tally-split n k [] = omega arith
tally-split n k (j ∷ js) = elim (Bool-cases (of_peer k j)) [
  | inl y ↦ rw y (omega (arith, tally-split n k js))
  | inr o ↦ rw o (omega (arith, tally-split n k js))
]

pub tally-map :
    (n : ℕ) (f : Job → Job) (jobs : List Job)
    → ((j : Job) → (f j).number ≡ j.number)
    → tally n (map f jobs) ≡ tally n jobs
tally-map n f [] h = refl
tally-map n f (j ∷ js) h =
    let same : weight n (f j) ≡ weight n j = ap (λ x. if x == n then 1 else 0) (h j) in
    omega (arith, same, tally-map n f js h)

tally-jobs_of : (n : ℕ) (o : Option (List Job)) → tally n (jobs_of o) ≡ value_at (tally n) o
tally-jobs_of n none = refl
tally-jobs_of n (some jobs) = refl

pub tally-add_to :
    (n : ℕ) (job : Job) (m : JsMap (List Job))
    → sum_of (tally n) (add_to job m) ≡ weight n job + sum_of (tally n) m
unfolding add_to
tally-add_to n job m =
    let jobs = jobs_at job.peer_key m in
    omega (
      arith,
      sum_of-set (tally n) job.peer_key (jobs ++ job ∷ []) m,
      tally-append n jobs (job ∷ []),
      tally-jobs_of n (JsMap.get job.peer_key m),
    )

-- the same call has the same number
same_number : (n : ℕ) (job j : Job) → is_same job j ≡ true → weight n j ≡ weight n job
same_number n job j h = ap (λ x. if x == n then 1 else 0) (go (of_peer job.peer_key j) h)
  where
    go : (b : Bool) → (b && j.number == job.number) ≡ true → j.number ≡ job.number
    go true e = ground (arith, e)
    go false e = absurd (cc e)

-- a job that `take_job` finds among the jobs
pub tally-take_job :
    (n : ℕ) (job : Job) (jobs : List Job)
    → length jobs ≡ suc (length (take_job job jobs))
    → tally n jobs ≡ weight n job + tally n (take_job job jobs)
unfolding take_job
tally-take_job n job [] h = absurd (omega (arith, h))
tally-take_job n job (j ∷ js) h = go (is_same job j) refl h (tally-take_job n job js)
  where
    go :
        (b : Bool)
        → is_same job j ≡ b
        → length (j ∷ js) ≡ suc (length (if b then js else j ∷ take_job job js))
        → (length js ≡ suc (length (take_job job js))
            → tally n js ≡ weight n job + tally n (take_job job js))
        → tally n (j ∷ js) ≡ weight n job + tally n (if b then js else j ∷ take_job job js)
    go true e h ih = omega (arith, same_number n job j e)
    go false e h ih = omega (arith, ih (omega (arith, h)))

pub tally-drop_from :
    (n : ℕ) (job : Job) (m : JsMap (List Job))
    → IsDistinct m
    → length (jobs_at job.peer_key m) ≡ suc (length (take_job job (jobs_at job.peer_key m)))
    → weight n job + sum_of (tally n) (drop_from job m) ≡ sum_of (tally n) m
unfolding drop_from
tally-drop_from n job m d h = go (JsMap.get job.peer_key m) refl h
  where
    put :
        (jobs rest : List Job)
        → JsMap.get job.peer_key m ≡ some jobs
        → tally n jobs ≡ weight n job + tally n rest
        → weight n job + sum_of (tally n) (put_jobs job.peer_key rest m) ≡ sum_of (tally n) m
    put jobs [] eq one =
        omega (arith, sum_of-delete (tally n) job.peer_key m d, ap (value_at (tally n)) eq, one)
    put jobs (j ∷ js) eq one =
        omega (arith, sum_of-set (tally n) job.peer_key (j ∷ js) m, ap (value_at (tally n)) eq, one)

    go :
        (o : Option (List Job))
        → JsMap.get job.peer_key m ≡ o
        → length (jobs_of o) ≡ suc (length (take_job job (jobs_of o)))
        → weight n job + sum_of (tally n) (drop_found job o m) ≡ sum_of (tally n) m
    go none eq one = absurd (omega (arith, one))
    go (some jobs) eq one = put jobs (take_job job jobs) eq (tally-take_job n job jobs one)
