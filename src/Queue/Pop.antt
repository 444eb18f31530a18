-- ===== src/Queue/Pop.antt =====
-- `Pop` takes the first job of the rotation.
use boomerangz.Base.{
  ℕ, suc, ◌+◌, ◌≤◌, ◌<◌, ◌≡◌, refl, ap, subst, ◌≢◌, ◌⊎◌, inl, inr, true, false, none, some, List,
  [], ◌∷◌, arith, if◌then◌else◌, Bool-cases, Text, text_key, ℕ_key, ◌=?◌, is_nil, contains, IsNodup,
  contains-append, contains-remove, IsNodup-snoc,
}
use boomerangz.Base.Dict.{
  lookup-absent, Dict, keys, lookup-insert, lookup-delete, IsNodup-keys-insert, IsNodup-keys-delete,
}
use boomerangz.Jobs.{Job}
use boomerangz.Queue.{
  FairQueue, jobs_of, pop_step, take_job, Popped, popped, drained, waiting, observe_locked,
}
use boomerangz.Queue.Weights.{weigh, weigh_jobs, named, each, weigh-insert, weigh-delete}
use boomerangz.Queue.Rotation.{rotate, rotation_pop}
use boomerangz.Queue.Valid.{IsValid, view, view_of, view_of-append}

module _ {W : Type 0} where
  weigh-take_job :
      (f : Job W → ℕ) (g : Text) (order : List Text) (j : Job W) (js : List (Job W))
      (q : FairQueue W)
      → IsNodup (keys q.groups)
      → jobs_of g q.groups ≡ j ∷ js
      → weigh f (take_job g order j js q).groups + f j ≡ weigh f q.groups
  weigh-take_job f g order j [] q n e =
      omega (arith, weigh-delete f g q.groups n, ap (weigh_jobs f) e)
  weigh-take_job f g order j (k ∷ js) q n e =
      omega (arith, weigh-insert f g (k ∷ js) q.groups, ap (weigh_jobs f) e)

  -- What a change of one group does to the turns of the others.
  pub view_of_other :
      (g : Text) (m m' : Dict Text (List (Job W))) (order : List Text)
      → ((h : Text) → h ≢ g → jobs_of h m' ≡ jobs_of h m)
      → contains order g ≡ false
      → view_of m' order ≡ view_of m order
  view_of_other g m m' [] agree h = refl
  view_of_other g m m' (x ∷ order) agree h =
      ground (arith, agree x, view_of_other g m m' order agree)

  take_job-jobs :
      (g h : Text) (order : List Text) (j : Job W) (js : List (Job W)) (q : FairQueue W)
      → jobs_of h (take_job g order j js q).groups ≡ (if g =? h then js else jobs_of h q.groups)
  take_job-jobs g h order j [] q = ground (arith, lookup-delete g h q.groups)
  take_job-jobs g h order j (k ∷ js) q = ground (arith, lookup-insert g h (k ∷ js) q.groups)

  module _ (g : Text) (order : List Text) (j : Job W) (js : List (Job W)) (q : FairQueue W)
      (v : IsValid q) (first : q.order ≡ g ∷ order) (has : jobs_of g q.groups ≡ j ∷ js) where
    open v use {order_nodup, keys_nodup, listed, counted, bounded, once, exact, grouped}

    tail-IsNodup : (contains order g ≡ false) × IsNodup order
    tail-IsNodup = rw first at order_nodup

    take_job_order : IsNodup (take_job g order j js q).order
    take_job_order = ground (arith, tail-IsNodup, IsNodup-snoc order g)

    take_job-keys : IsNodup (keys (take_job g order j js q).groups)
    take_job-keys = ground (
      arith,
      IsNodup-keys-insert g js q.groups keys_nodup,
      IsNodup-keys-delete g q.groups keys_nodup,
    )

    pub take_job-IsValid : IsValid (take_job g order j js q)
    take_job-IsValid = record {
      order_nodup = take_job_order;
      keys_nodup = take_job-keys;
      listed = λ h. ground (
        arith,
        listed h,
        first,
        has,
        tail-IsNodup,
        contains-append order (g ∷ []) h,
        take_job-jobs g h order j js q,
      );
      counted = omega (arith, weigh-take_job each g order j js q keys_nodup has);
      bounded = omega arith;
      once = λ x. omega (arith, weigh-take_job (named x) g order j js q keys_nodup has, once x);
      exact = λ x. ground (
        arith,
        weigh-take_job (named x) g order j js q keys_nodup has,
        once x,
        exact x,
        contains-remove q.ids j.id x,
      );
      grouped = λ h. ground (arith, grouped h, grouped g, has, take_job-jobs g h order j js q);
    }

    take_job-others : view_of (take_job g order j js q).groups order ≡ view_of q.groups order
    take_job-others =
        view_of_other g q.groups (take_job g order j js q).groups order
          (λ h other. ground (arith, take_job-jobs g h order j js q, other)) tail-IsNodup.0

    view_first : view q ≡ (g, j ∷ js) ∷ view_of q.groups order
    view_first = cc (ap (view_of q.groups) first, has)

    view_rest :
        (ks : List (Job W))
        → js ≡ ks
        → view (take_job g order j js q) ≡ rotate g ks (view_of q.groups order)
    view_rest [] e = ground (arith, take_job-others)
    view_rest (k ∷ ks) e = ground (
      arith,
      take_job-others,
      view_of-append (take_job g order j js q).groups order (g ∷ []),
      take_job-jobs g g order j js q,
    )

    pub take_job-view : rotation_pop (view q) ≡ some (j, view (take_job g order j js q))
    take_job-view = ground (arith, view_first, view_rest js refl)

  -- A group with a job has weight, and a map whose groups are all empty has none.
  weigh-pos :
      (g : Text) (m : Dict Text (List (Job W))) (j : Job W) (js : List (Job W))
      → jobs_of g m ≡ j ∷ js
      → 1 ≤ weigh each m
  weigh-pos g [] j js h = cc
  weigh-pos g ((k, ks) ∷ m) j js h = ground (arith, weigh-pos g m j js, ap (weigh_jobs each) h)

  weigh-empty :
      (m : Dict Text (List (Job W)))
      → IsNodup (keys m)
      → ((g : Text) → is_nil (jobs_of g m) ≡ true)
      → weigh each m ≡ 0
  weigh-empty [] n h = refl
  weigh-empty ((k, []) ∷ m) n h =
      omega (arith, weigh-empty m n.1 (λ g. ground (arith, h g, lookup-absent g m, n.0)))
  weigh-empty ((k, j ∷ js) ∷ m) n h = ground (arith, h k)

  module _ (q : FairQueue W) (v : IsValid q) where
    order-cases :
        (order : List Text)
        → q.order ≡ order
        → (q.count ≡ 0) × (order ≡ [])
          ⊎ ((g : Text) × (rest : List Text) × (j : Job W) × (js : List (Job W)) × (order
                ≡ g ∷ rest)
              × (jobs_of g q.groups ≡ j ∷ js)
              × (0 < q.count))
    order-cases [] e = inl (
      ground
          (arith, v.counted, weigh-empty q.groups v.keys_nodup (λ g. ground (arith, v.listed g))),
      refl,
    )
    order-cases (g ∷ rest) e = busy (jobs_of g q.groups) refl
      where
        busy :
            (js : List (Job W))
            → jobs_of g q.groups ≡ js
            → (q.count ≡ 0) × (◌≡◌ {A = List Text} (g ∷ rest) [])
              ⊎ ((g' : Text) × (rest' : List Text) × (j : Job W) × (js : List (Job W)) × (◌≡◌
                    {A = List Text}
                    (g ∷ rest)
                    (g' ∷ rest'))
                  × (jobs_of g' q.groups ≡ j ∷ js)
                  × (0 < q.count))
        busy [] h = absurd (ground (arith, v.listed g))
        busy (j ∷ js) h =
            inr (g, rest, j, js, refl, h, omega (arith, v.counted, weigh-pos g q.groups j js h))

  -- The branches of a look of `Pop`: what it gives, and the queue and the world after it.
  pub data PopStep (q : FairQueue W) (w : W) : Popped W × FairQueue W × W → Type 0 where
    took :
        (j : Job W) (q' : FairQueue W)
        → IsValid q'
        → rotation_pop (view q) ≡ some (j, view q')
        → suc q'.count ≡ q.count
        → PopStep q w (
          popped j,
          q',
          observe_locked q' (record { offered = none; dropped = []; reason = [] }) w,
        )
    ended : q.count ≡ 0 → view q ≡ [] → q.closed ≡ true → PopStep q w (drained, q, w)
    empty : q.count ≡ 0 → view q ≡ [] → q.closed ≡ false → PopStep q w (waiting, q, w)

  -- A look of `Pop` at a valid queue takes the first job of the rotation whenever there is one, a
  -- closed queue's too, and the queue stays valid; it reports the end only of a closed queue with no
  -- job left, waits only at an open one, and never reads out of range.
  pub pop_step_branches : (q : FairQueue W) (w : W) → IsValid q → PopStep q w (pop_step q w)
  unfolding pop_step
  pop_step_branches q w v = elim (order-cases q v q.order refl) [
    | inl (none_left, e) ↦ elim (Bool-cases q.closed) [
      | inl shut ↦
          subst (PopStep q w) (ground arith) (ended none_left (ap (view_of q.groups) e) shut)
      | inr opened ↦
          subst (PopStep q w) (ground arith) (empty none_left (ap (view_of q.groups) e) opened)
    ]
    | inr (g, rest, j, js, e, has, some_left) ↦ subst (PopStep q w) (ground (arith, e, has)) (
        took j (take_job g rest j js q) (take_job-IsValid g rest j js q v e has)
          (take_job-view g rest j js q v e has) (omega arith))
  ]
