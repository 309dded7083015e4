-- ===== src/Turns/Peers.antt =====
-- The maps of the jobs by peer.
use polkadot_chat_agents.Base.JsMap
use polkadot_chat_agents.Base.JsMap.{
  JsMap, IsDistinct, Absent, IsDistinct-set, IsDistinct-delete, get-set_self, get-set_ne,
  get-delete_self, get-delete_ne,
}
use polkadot_chat_agents.Base.MapSums.{sum_of}
use polkadot_chat_agents.Turns.Queue.{
  Job, of_peer, is_same, jobs_of, jobs_at, take_job, add_to, put_jobs, drop_found, drop_from,
}
use polkadot_chat_agents.Base.{
  All, not, keep_if, if-cases, ℕ, String, Bool, true, false, ◌&&◌, Option, none, some, List, [],
  ◌∷◌, ◌++◌, ◌≡◌, ◌≢◌, refl, ap, sym, ◌∙◌, arith, ◌==◌, length, if◌then◌else◌, key_dec, ite, if_pos,
}

abbrev pub total : JsMap (List Job) → ℕ
total = sum_of length

same_refl : (job : Job) → is_same job job ≡ true
same_refl job = rw (if_pos (key_dec job.peer_key job.peer_key) refl) (ground arith)

pub take_job-head : (job : Job) (jobs : List Job) → take_job job (job ∷ jobs) ≡ jobs
unfolding take_job
take_job-head job jobs = rw (same_refl job) refl

pub jobs_at-add_to :
    (k : String) (job : Job) (m : JsMap (List Job))
    → jobs_at k (add_to job m) ≡ (if of_peer k job then jobs_at k m ++ job ∷ [] else jobs_at k m)
unfolding add_to
jobs_at-add_to k job m = go (key_dec job.peer_key k)
  where
    jobs : List Job
    jobs = jobs_at job.peer_key m ++ job ∷ []

    go :
        (d : Dec (job.peer_key ≡ k))
        → jobs_at k (JsMap.set job.peer_key jobs m)
          ≡ (if ite d true false then jobs_at k m ++ job ∷ [] else jobs_at k m)
    go (yes p) =
        ap (λ j. jobs_at j (JsMap.set job.peer_key jobs m)) (sym p)
        ∙ ap jobs_of (get-set_self job.peer_key jobs m)
        ∙ ap (λ j. jobs_at j m ++ job ∷ []) p
    go (no p) = ap jobs_of (get-set_ne job.peer_key k jobs m p)

jobs_at-put_jobs :
    (key : String) (jobs : List Job) (m : JsMap (List Job))
    → jobs_at key (put_jobs key jobs m) ≡ jobs
jobs_at-put_jobs key [] m = ap jobs_of (get-delete_self key m)
jobs_at-put_jobs key (j ∷ js) m = ap jobs_of (get-set_self key (j ∷ js) m)

jobs_at-put_jobs_ne :
    (key k : String) (jobs : List Job) (m : JsMap (List Job))
    → key ≢ k
    → jobs_at k (put_jobs key jobs m) ≡ jobs_at k m
jobs_at-put_jobs_ne key k [] m p = ap jobs_of (get-delete_ne key k m p)
jobs_at-put_jobs_ne key k (j ∷ js) m p = ap jobs_of (get-set_ne key k (j ∷ js) m p)

pub jobs_at-drop_from :
    (k : String) (job : Job) (m : JsMap (List Job))
    → jobs_at k (drop_from job m)
      ≡ (if of_peer k job then take_job job (jobs_at k m) else jobs_at k m)
unfolding drop_from take_job
jobs_at-drop_from k job m = go (key_dec job.peer_key k) (JsMap.get job.peer_key m) refl
  where
    go :
        (d : Dec (job.peer_key ≡ k)) (o : Option (List Job))
        → JsMap.get job.peer_key m ≡ o
        → jobs_at k (drop_found job o m)
          ≡ (if ite d true false then take_job job (jobs_at k m) else jobs_at k m)
    go (yes p) none eq =
        let empty = ap (λ j. jobs_at j m) (sym p) ∙ ap jobs_of eq in
        empty ∙ ap (take_job job) (sym empty)
    go (yes p) (some jobs) eq =
        let here = ap (λ j. jobs_at j m) (sym p) ∙ ap jobs_of eq in
        ap (λ j. jobs_at j (put_jobs job.peer_key (take_job job jobs) m)) (sym p)
        ∙ jobs_at-put_jobs job.peer_key (take_job job jobs) m
        ∙ ap (take_job job) (sym here)
    go (no p) none eq = refl
    go (no p) (some jobs) eq = jobs_at-put_jobs_ne job.peer_key k (take_job job jobs) m p

pub keep_if-snoc :
    (p : Job → Bool) (jobs : List Job) (job : Job)
    → keep_if p (jobs ++ job ∷ []) ≡ (if p job then keep_if p jobs ++ job ∷ [] else keep_if p jobs)
keep_if-snoc p [] job = refl
keep_if-snoc p (j ∷ js) job = go (p j) (p job) (keep_if-snoc p js job)
  where
    go :
        (b c : Bool)
        → keep_if p (js ++ job ∷ []) ≡ (if c then keep_if p js ++ job ∷ [] else keep_if p js)
        → (if b then j ∷ keep_if p (js ++ job ∷ []) else keep_if p (js ++ job ∷ [])) ≡ (
            if c
            then (if b then j ∷ keep_if p js else keep_if p js) ++ job ∷ []
            else (if b then j ∷ keep_if p js else keep_if p js))
    go true true ih = ap (◌∷◌ j) ih
    go true false ih = ap (◌∷◌ j) ih
    go false true ih = ih
    go false false ih = ih

same_peer : (k : String) (job j : Job) → is_same job j ≡ true → of_peer k job ≡ of_peer k j
same_peer k job j h =
    ap (λ x. ite (key_dec x k) true false) (peers (key_dec j.peer_key job.peer_key) h)
  where
    peers :
        (d : Dec (j.peer_key ≡ job.peer_key))
        → (ite d true false && j.number == job.number) ≡ true
        → job.peer_key ≡ j.peer_key
    peers (yes p) h = sym p
    peers (no p) h = absurd (cc h)

pub keep_if-take_job :
    (k : String) (job : Job) (jobs : List Job)
    → keep_if (of_peer k) (take_job job jobs) ≡ (
        if of_peer k job then take_job job (keep_if (of_peer k) jobs) else keep_if (of_peer k) jobs)
unfolding take_job
keep_if-take_job k job [] = go (of_peer k job)
  where
    go : (c : Bool) → [] ≡ (if c then take_job job [] else [])
    go true = refl
    go false = refl
keep_if-take_job k job (j ∷ js) =
    go (is_same job j) (of_peer k job) (of_peer k j) refl (same_peer k job j) refl
      (keep_if-take_job k job js)
  where
    kept : List Job
    kept = keep_if (of_peer k) js

    go :
        (b c d : Bool)
        → is_same job j ≡ b
        → (b ≡ true → c ≡ d)
        → of_peer k j ≡ d
        → keep_if (of_peer k) (take_job job js) ≡ (if c then take_job job kept else kept)
        → keep_if (of_peer k) (if b then js else j ∷ take_job job js) ≡ (
            if c
            then take_job job (if d then j ∷ kept else kept)
            else (if d then j ∷ kept else kept))
    go true true true e l f ih = sym (rw e refl)
    go true true false e l f ih = absurd (cc (l refl))
    go true false true e l f ih = absurd (cc (l refl))
    go true false false e l f ih = refl
    go false true true e l f ih = rw (f, e) (ap (◌∷◌ j) ih)
    go false true false e l f ih = rw f ih
    go false false true e l f ih = rw f (ap (◌∷◌ j) ih)
    go false false false e l f ih = rw f ih

-- the removal of all jobs of a list
unfoldable pub take_all : List Job → List Job → List Job
unfolding take_job
take_all [] xs = xs
take_all (j ∷ js) xs = take_all js (take_job j xs)

take_all-other :
    (k : String) (x : Job) (js xs : List Job)
    → of_peer k x ≡ false
    → All (λ j. of_peer k j ≡ true) js
    → take_all js (x ∷ xs) ≡ x ∷ take_all js xs
unfolding take_all take_job
take_all-other k x [] xs o h = refl
take_all-other k x (j ∷ js) xs o h =
    rw (differ (is_same j x) refl) (take_all-other k x js (take_job j xs) o h.1)
  where
    differ : (b : Bool) → is_same j x ≡ b → is_same j x ≡ false
    differ true e = absurd (cc (same_peer k j x e, o, h.0))
    differ false e = e

keep_if-All : (p : Job → Bool) (xs : List Job) → All (λ j. p j ≡ true) (keep_if p xs)
keep_if-All p [] = tt
keep_if-All p (x ∷ xs) =
    if-cases (All (λ j. p j ≡ true)) (p x) _ _ (λ y. (y, keep_if-All p xs)) (λ n. keep_if-All p xs)

-- the jobs of a peer taken out of a list leave the others, in order
pub take_all-keep_if :
    (k : String) (xs : List Job)
    → take_all (keep_if (of_peer k) xs) xs ≡ keep_if (λ j. not (of_peer k j)) xs
unfolding take_all
take_all-keep_if k [] = refl
take_all-keep_if k (x ∷ xs) = go (of_peer k x) refl (take_all-keep_if k xs)
  where
    go :
        (b : Bool)
        → of_peer k x ≡ b
        → take_all (keep_if (of_peer k) xs) xs ≡ keep_if (λ j. not (of_peer k j)) xs
        → take_all (if b then x ∷ keep_if (of_peer k) xs else keep_if (of_peer k) xs) (x ∷ xs) ≡ (
            if not b
            then x ∷ keep_if (λ j. not (of_peer k j)) xs
            else keep_if (λ j. not (of_peer k j)) xs)
    go true e ih = ap (take_all (keep_if (of_peer k) xs)) (take_job-head x xs) ∙ ih
    go false e ih =
        take_all-other k x (keep_if (of_peer k) xs) xs e (keep_if-All (of_peer k) xs)
        ∙ ap (◌∷◌ x) ih
