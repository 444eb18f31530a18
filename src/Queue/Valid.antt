-- ===== src/Queue/Valid.antt =====
-- What holds of the queue between two calls, and the rotation that it stands for.
use boomerangz.Base.{
  ℕ, ◌≤◌, ◌≡◌, refl, sym, ap, subst, Bool, true, false, not, ◌&&◌, none, List, [], ◌∷◌, ◌++◌, arith,
  ltb, Text, text_key, ℕ_key, ◌=?◌, is_nil, contains, IsNodup,
}
use boomerangz.Base.Dict.{Dict, keys}
use boomerangz.Base.Result.{ok}
use boomerangz.Jobs.{Job}
use boomerangz.Queue.{FairQueue, jobs_of, new_fair_queue}
use boomerangz.Queue.Weights.{weigh, named, each}
use boomerangz.Queue.Rotation.{Turn}

module _ {W : Type 0} where
  abbrev pub in_group : Text → List (Job W) → Bool
  in_group g [] = true
  in_group g (j ∷ js) = j.group =? g && in_group g js

  pub in_group-append :
      (g : Text) (xs ys : List (Job W)) → in_group g (xs ++ ys) ≡ (in_group g xs && in_group g ys)
  in_group-append g [] ys = refl
  in_group-append g (x ∷ xs) ys = ground (arith, in_group-append g xs ys)

  pub record IsValid (q : FairQueue W) : Type 0 where
    pub order_nodup : IsNodup q.order
    pub keys_nodup : IsNodup (keys q.groups)
    pub listed : (g : Text) → contains q.order g ≡ not (is_nil (jobs_of g q.groups))
    pub counted : q.count ≡ weigh each q.groups
    pub bounded : q.count ≤ q.capacity
    pub once : (x : Text) → weigh (named x) q.groups ≤ 1
    pub exact : (x : Text) → contains q.ids x ≡ ltb 0 (weigh (named x) q.groups)
    pub grouped : (g : Text) → in_group g (jobs_of g q.groups) ≡ true

  abbrev pub view_of : Dict Text (List (Job W)) → List Text → List (Turn W)
  view_of groups [] = []
  view_of groups (g ∷ order) = (g, jobs_of g groups) ∷ view_of groups order

  -- The groups in the order of their turns, each with its jobs.
  abbrev pub view : FairQueue W → List (Turn W)
  view q = view_of q.groups q.order

  pub view_of-append :
      (m : Dict Text (List (Job W))) (xs ys : List Text)
      → view_of m (xs ++ ys) ≡ view_of m xs ++ view_of m ys
  view_of-append m [] ys = refl
  view_of-append m (x ∷ xs) ys = ap (λ r. (x, jobs_of x m) ∷ r) (view_of-append m xs ys)

  pub new_fair_queue-IsValid :
      (capacity : ℕ) {q : FairQueue W} → new_fair_queue capacity ≡ ok q → IsValid q
  unfolding new_fair_queue
  new_fair_queue-IsValid capacity {q} h =
      let empty : FairQueue W = record {
        capacity = capacity;
        count = 0;
        groups = [];
        order = [];
        ids = [];
        signals = 0;
        closed = false;
        observe = none;
      } in
      let p : (q ≡ empty) × (1 ≤ capacity) = ground arith in
      subst IsValid (sym p.0) (record {
        order_nodup = tt;
        keys_nodup = tt;
        listed = λ g. refl;
        counted = refl;
        bounded = omega arith;
        once = λ x. omega arith;
        exact = λ x. refl;
        grouped = λ g. refl;
      })
