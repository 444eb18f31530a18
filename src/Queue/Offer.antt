-- ===== src/Queue/Offer.antt =====
-- `Offer` keeps the queue valid, and adds the job to the rotation.
use boomerangz.Base.{
  ℕ, ◌+◌, ◌<◌, ◌≡◌, ◌≢◌, refl, subst, is_none, inl, inr, Bool, true, false, some, List, [], ◌∷◌,
  ◌++◌, arith, leb, Bool-cases, Text, text_key, ℕ_key, is_nil, contains, IsNodup, contains-append,
  IsNodup-snoc,
}
use boomerangz.Base.Dict.{Dict, insert, lookup-insert, IsNodup-keys-insert}
use boomerangz.Base.Result.{Result, ok, err}
use boomerangz.Jobs.{Job}
use boomerangz.Queue.{
  observe_locked, FairQueue, jobs_of, offer, add_job, is_complete, capacity_reached, queue_closed,
  incomplete_job, QueueError,
}
use boomerangz.Queue.Weights.{weigh, named, each, weigh-insert, weigh_jobs-append}
use boomerangz.Queue.Rotation.{rotation_offer}
use boomerangz.Queue.Valid.{in_group-append, IsValid, view, view_of, view_of-append}

nonempty : (t : Text) → t ≢ [] → is_nil t ≡ false
nonempty [] full = absurd (full refl)
nonempty (c ∷ t) full = refl

module _ {W : Type 0} where
  is_nil-snoc : (js : List (Job W)) (j : Job W) → is_nil (js ++ j ∷ []) ≡ false
  is_nil-snoc [] j = refl
  is_nil-snoc (k ∷ js) j = refl

  -- What an addition does to each sum over the jobs.
  weigh-add_job :
      (f : Job W → ℕ) (job : Job W) (q : FairQueue W)
      → weigh f (add_job job q).groups ≡ weigh f q.groups + f job
  weigh-add_job f job q = omega (
    arith,
    weigh-insert f job.group (jobs_of job.group q.groups ++ job ∷ []) q.groups,
    weigh_jobs-append f (jobs_of job.group q.groups) (job ∷ []),
  )

  module _ (job : Job W) (q : FairQueue W) (v : IsValid q) (fresh : contains q.ids job.id ≡ false)
      (room : q.count < q.capacity) where
    open v use {order_nodup, keys_nodup, listed, counted, bounded, once, exact, grouped}

    add_job-IsValid : IsValid (add_job job q)
    add_job-IsValid = record {
      order_nodup = ground (arith, listed job.group, IsNodup-snoc q.order job.group);
      keys_nodup = IsNodup-keys-insert job.group _ q.groups keys_nodup;
      listed = λ g. ground (
        arith,
        listed g,
        listed job.group,
        contains-append q.order (job.group ∷ []) g,
        lookup-insert job.group g (jobs_of job.group q.groups ++ job ∷ []) q.groups,
        is_nil-snoc (jobs_of job.group q.groups) job,
      );
      counted = omega (arith, weigh-add_job each job q);
      bounded = omega arith;
      once = λ x. ground (arith, weigh-add_job (named x) job q, once x, exact x);
      exact = λ x. ground (arith, weigh-add_job (named x) job q, exact x);
      grouped = λ g. ground (
        arith,
        grouped g,
        grouped job.group,
        lookup-insert job.group g (jobs_of job.group q.groups ++ job ∷ []) q.groups,
        in_group-append g (jobs_of job.group q.groups) (job ∷ []),
      );
    }

  -- What an insertion does to the turns of the other groups.
  view_of-insert_other :
      (g : Text) (js : List (Job W)) (m : Dict Text (List (Job W))) (order : List Text)
      → contains order g ≡ false
      → view_of (insert g js m) order ≡ view_of m order
  view_of-insert_other g js m [] h = refl
  view_of-insert_other g js m (x ∷ order) h =
      ground (arith, view_of-insert_other g js m order, lookup-insert g x js m)

  rotation_offer-new :
      (job : Job W) (m : Dict Text (List (Job W))) (order : List Text)
      → contains order job.group ≡ false
      → rotation_offer job (view_of m order) ≡ view_of m order ++ (job.group, job ∷ []) ∷ []
  rotation_offer-new job m [] h = refl
  rotation_offer-new job m (x ∷ order) h = ground (arith, rotation_offer-new job m order)

  rotation_offer-old :
      (job : Job W) (m : Dict Text (List (Job W))) (order : List Text)
      → contains order job.group ≡ true
      → IsNodup order
      → rotation_offer job (view_of m order)
        ≡ view_of (insert job.group (jobs_of job.group m ++ job ∷ []) m) order
  rotation_offer-old job m [] h n = cc
  rotation_offer-old job m (x ∷ order) h n = ground (
    arith,
    rotation_offer-old job m order,
    lookup-insert job.group x (jobs_of job.group m ++ job ∷ []) m,
    view_of-insert_other job.group (jobs_of job.group m ++ job ∷ []) m order,
  )

  add_job-view :
      (job : Job W) (q : FairQueue W)
      → IsValid q
      → view (add_job job q) ≡ rotation_offer job (view q)
  add_job-view job q v = elim (Bool-cases (is_nil (jobs_of job.group q.groups))) [
    | inl new ↦ ground (
      arith,
      v.listed job.group,
      rotation_offer-new job q.groups q.order,
      view_of-append (add_job job q).groups q.order (job.group ∷ []),
      view_of-insert_other job.group (jobs_of job.group q.groups ++ job ∷ []) q.groups q.order,
      lookup-insert job.group job.group (jobs_of job.group q.groups ++ job ∷ []) q.groups,
    )
    | inr old ↦
        ground (arith, v.listed job.group, v.order_nodup, rotation_offer-old job q.groups q.order)
  ]

  -- A job with its metadata: an identity, a run, a group, a scope and what to run.
  pub record IsWhole (job : Job W) : Type 0 where
    pub identity : job.id ≢ []
    pub run_number : 0 < job.run_id
    pub group : job.group ≢ []
    pub scope : job.scope ≢ []
    pub body : is_none job.run ≡ false

  is_complete-IsWhole : (job : Job W) → is_complete job ≡ true → IsWhole job
  is_complete-IsWhole job whole = record {
    identity = λ empty. ground (arith, empty, whole);
    run_number = ground (arith, whole);
    group = λ empty. ground (arith, empty, whole);
    scope = λ empty. ground (arith, empty, whole);
    body = ground (arith, whole);
  }

  IsWhole-is_complete : (job : Job W) → IsWhole job → is_complete job ≡ true
  IsWhole-is_complete job h = ground (
    arith,
    nonempty job.id h.identity,
    h.run_number,
    nonempty job.group h.group,
    nonempty job.scope h.scope,
    h.body,
  )

  -- The branches of `Offer`, each with what it takes: the result, and the queue and the world after it.
  pub data Offered (job : Job W) (q : FairQueue W) (w : W)
      : Result QueueError Bool × FairQueue W × W → Type 0 where
    refused_incomplete : ¬ IsWhole job → Offered job q w (err incomplete_job, q, w)
    refused_closed : IsWhole job → q.closed ≡ true → Offered job q w (err queue_closed, q, w)
    repeated :
        IsWhole job
        → q.closed ≡ false
        → contains q.ids job.id ≡ true
        → Offered job q w (ok false, q, w)
    refused_full :
        IsWhole job
        → q.closed ≡ false
        → contains q.ids job.id ≡ false
        → q.count ≡ q.capacity
        → Offered job q w (err (capacity_reached q.capacity), q, w)
    added :
        (q' : FairQueue W)
        → IsWhole job
        → q.closed ≡ false
        → contains q.ids job.id ≡ false
        → q.count < q.capacity
        → IsValid q'
        → view q' ≡ rotation_offer job (view q)
        → Offered job q w (
          ok true,
          q',
          observe_locked q' (record { offered = some job; dropped = []; reason = [] }) w,
        )

  module _ (job : Job W) (q : FairQueue W) (w : W) (v : IsValid q) where
    offer_open : is_complete job ≡ true → q.closed ≡ false → Offered job q w (offer job q w)
    unfolding offer
    offer_open whole opened = elim (Bool-cases (contains q.ids job.id)) [
      | inl old ↦
          subst (Offered job q w) (ground arith)
            (repeated (is_complete-IsWhole job whole) opened old)
      | inr fresh ↦ elim (Bool-cases (leb q.capacity q.count)) [
        | inl full ↦
            subst (Offered job q w) (ground arith) (
              refused_full (is_complete-IsWhole job whole) opened fresh (ground (arith, v.bounded)))
        | inr room ↦ subst (Offered job q w) (ground arith) (
            added (add_job job q) (is_complete-IsWhole job whole) opened fresh (ground arith)
              (add_job-IsValid job q v fresh (ground arith)) (add_job-view job q v))
      ]
    ]

    -- Offer to a valid queue refuses a job that is not whole, a closed queue, and a full one; it
    -- passes over an identity that is pending; in these cases nothing changes. Any other job joins
    -- the rotation, only if it is whole and fresh and the queue is open with room; the queue is
    -- valid again, and the observer is called with the job.
    pub offer_branches : Offered job q w (offer job q w)
    unfolding offer
    offer_branches = elim (Bool-cases (is_complete job)) [
      | inr part ↦
          subst (Offered job q w) (ground arith)
            (refused_incomplete (λ h. ground (arith, IsWhole-is_complete job h, part)))
      | inl whole ↦ elim (Bool-cases q.closed) [
        | inl shut ↦
            subst (Offered job q w) (ground arith)
              (refused_closed (is_complete-IsWhole job whole) shut)
        | inr opened ↦ offer_open whole opened
      ]
    ]
