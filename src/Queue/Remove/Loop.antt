-- ===== src/Queue/Remove/Loop.antt =====
-- The loop of `RemoveScope` over the groups, and what the two removals leave.
use boomerangz.Base.{
  ℕ, ◌+◌, ◌≡◌, refl, sym, ap, ◌∙◌, Bool, true, false, not, ◌&&◌, List, [], ◌∷◌, ◌++◌, arith,
  if◌then◌else◌, Text, text_key, ℕ_key, length, is_nil, length-append, keep, All, contains, remove,
  IsNodup, none, some,
}
use boomerangz.Base.Dict.{Dict, keys, lookup-absent, contains-keys_iff}
use boomerangz.Jobs.{Job}
use boomerangz.Queue.{
  FairQueue, jobs_of, out_of_scope, remove_from, remove_loop, announce, drop_jobs, discard_all,
  signal, all_jobs, observe_locked,
}
use boomerangz.Queue.Weights.{weigh, each}
use boomerangz.Queue.Rotation.{Turn, rotation_remove}
use boomerangz.Queue.Valid.{IsValid, view, view_of}
use boomerangz.Queue.Remove.{remove_from-jobs, weigh_jobs-each, remove_from-IsValid}

keep-all : (p : Text → Bool) (xs : List Text) → ((x : Text) → p x ≡ true) → keep p xs ≡ xs
keep-all p [] h = refl
keep-all p (x ∷ xs) h = ground (arith, h x, keep-all p xs h)

-- The jobs of a queue's groups that match, each one once.
abbrev pub matching : {W : Type 0} → (Job W → Bool) → Dict Text (List (Job W)) → List (Job W)
matching p [] = []
matching p ((g, js) ∷ m) = keep p js ++ matching p m

module _ {W : Type 0} (scope : Text) where
  -- The groups still to be visited are as they were.
  abbrev Agrees : Dict Text (List (Job W)) → FairQueue W → Type 0
  Agrees es q = (h : Text) → contains (keys es) h ≡ true → jobs_of h q.groups ≡ jobs_of h es

  Agrees-step :
      (g : Text) (js : List (Job W)) (es : Dict Text (List (Job W))) (q : FairQueue W)
      → IsNodup (keys ((g, js) ∷ es))
      → Agrees ((g, js) ∷ es) q
      → Agrees es (remove_from scope g js q)
  Agrees-step g js es q n a h m = ground (arith, remove_from-jobs scope g js q h, a h, n.0)

  remove_loop-IsValid :
      (es : Dict Text (List (Job W))) (q : FairQueue W)
      → IsNodup (keys es)
      → Agrees es q
      → IsValid q
      → IsValid (remove_loop scope es q).1
  unfolding remove_loop
  remove_loop-IsValid [] q n a v = v
  remove_loop-IsValid ((g, js) ∷ es) q n a v =
      remove_loop-IsValid es (remove_from scope g js q) n.1 (Agrees-step g js es q n a)
        (remove_from-IsValid scope g js q v (ground (arith, a g)))

  remove_loop-jobs :
      (es : Dict Text (List (Job W))) (q : FairQueue W) (h : Text)
      → IsNodup (keys es)
      → jobs_of h (remove_loop scope es q).1.groups
        ≡ (if contains (keys es) h then out_of_scope scope (jobs_of h es) else jobs_of h q.groups)
  unfolding remove_loop
  remove_loop-jobs [] q h n = refl
  remove_loop-jobs ((g, js) ∷ es) q h n = ground (
    arith,
    remove_loop-jobs es (remove_from scope g js q) h n.1,
    remove_from-jobs scope g js q h,
    n.0,
    lookup-absent h es,
  )

  -- The groups that keep a job, in their order.
  abbrev stays : Dict Text (List (Job W)) → Text → Bool
  stays es h = not (contains (keys es) h && is_nil (out_of_scope scope (jobs_of h es)))

  keep-remove :
      (g : Text) (js : List (Job W)) (es : Dict Text (List (Job W))) (order : List Text)
      → contains (keys es) g ≡ false
      → keep (stays es) (if is_nil (out_of_scope scope js) then remove g order else order)
        ≡ keep (stays ((g, js) ∷ es)) order
  keep-remove g js es [] n = ground arith
  keep-remove g js es (x ∷ order) n = ground (arith, keep-remove g js es order)

  remove_loop-order :
      (es : Dict Text (List (Job W))) (q : FairQueue W)
      → IsNodup (keys es)
      → (remove_loop scope es q).1.order ≡ keep (stays es) q.order
  unfolding remove_loop
  remove_loop-order [] q n = sym (keep-all (stays []) q.order (λ x. refl))
  remove_loop-order ((g, js) ∷ es) q n =
      remove_loop-order es (remove_from scope g js q) n.1 ∙ keep-remove g js es q.order n.0

  view_of-removed :
      (m m' : Dict Text (List (Job W))) (order : List Text)
      → ((h : Text) → jobs_of h m' ≡ out_of_scope scope (jobs_of h m))
      → All (λ h. is_nil (jobs_of h m) ≡ false) order
      → view_of m' (keep (stays m) order) ≡ rotation_remove scope (view_of m order)
  view_of-removed m m' [] agree busy = refl
  view_of-removed m m' (x ∷ order) agree busy =
      ground
        (arith, agree x, view_of-removed m m' order agree busy.1, busy.0, contains-keys_iff x m)

  module _ (q : FairQueue W) (v : IsValid q) where
    remove_loop-all :
        (h : Text)
        → jobs_of h (remove_loop scope q.groups q).1.groups
          ≡ out_of_scope scope (jobs_of h q.groups)
    remove_loop-all h =
        ground (arith, remove_loop-jobs q.groups q h v.keys_nodup, contains-keys_iff h q.groups)

    busy_order :
        (order : List Text)
        → ((h : Text) → contains order h ≡ true → contains q.order h ≡ true)
        → All (λ h. is_nil (jobs_of h q.groups) ≡ false) order
    busy_order [] sub = tt
    busy_order (x ∷ order) sub =
        (ground (arith, v.listed x, sub x), busy_order order (λ h m. ground (arith, sub h)))

    pub remove_loop-view : view (remove_loop scope q.groups q).1 ≡ rotation_remove scope (view q)
    remove_loop-view =
        ap (view_of (remove_loop scope q.groups q).1.groups)
          (remove_loop-order q.groups q v.keys_nodup)
        ∙ view_of-removed q.groups (remove_loop scope q.groups q).1.groups q.order remove_loop-all
            (busy_order q.order (λ h m. m))

    pub remove_loop-IsValid' : IsValid (remove_loop scope q.groups q).1
    remove_loop-IsValid' = remove_loop-IsValid q.groups q v.keys_nodup (λ h m. refl) v

-- A notification changes no job.
signal-IsValid : {W : Type 0} {q : FairQueue W} → IsValid q → IsValid (signal q)
signal-IsValid v = record {
  order_nodup = v.order_nodup;
  keys_nodup = v.keys_nodup;
  listed = v.listed;
  counted = v.counted;
  bounded = v.bounded;
  once = v.once;
  exact = v.exact;
  grouped = v.grouped;
}

module _ {W : Type 0} where
  announce-IsValid :
      (dropped : List (Job W)) (reason : Text) (q : FairQueue W) (w : W)
      → IsValid q
      → IsValid (announce dropped reason q w).0
  unfolding announce
  announce-IsValid [] reason q w v = v
  announce-IsValid (j ∷ js) reason q w v = signal-IsValid v

  announce-view :
      (dropped : List (Job W)) (reason : Text) (q : FairQueue W) (w : W)
      → (view (announce dropped reason q w).0 ≡ view q)
        × ((announce dropped reason q w).0.count ≡ q.count)
  unfolding announce
  announce-view [] reason q w = (refl, refl)
  announce-view (j ∷ js) reason q w = (refl, refl)

  -- What the observer is told of the jobs that are dropped, if any are.
  abbrev told : List (Job W) → Text → FairQueue W → W → W
  told [] reason q w = w
  told (j ∷ js) reason q w =
      observe_locked q (record { offered = none; dropped = j ∷ js; reason = reason }) w

  -- The closures `Drop` of the jobs, each called once, in their order.
  abbrev called : List (Job W) → W → W
  called [] w = w
  called (j ∷ js) w = called js (elim j.drop [ none ↦ w | some f ↦ f w ])

  drop_jobs-called : (js : List (Job W)) (w : W) → drop_jobs js w ≡ called js w
  unfolding drop_jobs
  drop_jobs-called [] w = refl
  drop_jobs-called (j ∷ js) w = drop_jobs-called js (elim j.drop [ none ↦ w | some f ↦ f w ])

  announce-told :
      (dropped : List (Job W)) (reason : Text) (q : FairQueue W) (w : W)
      → (announce dropped reason q w).1 ≡ told dropped reason (announce dropped reason q w).0 w
  unfolding announce
  announce-told [] reason q w = refl
  announce-told (j ∷ js) reason q w = refl

  called_back-called :
      (dropped listed : List (Job W)) (reason : Text) (q : FairQueue W) (w : W)
      → dropped ≡ listed
      → drop_jobs dropped (announce dropped reason q w).1
        ≡ called listed (told listed reason (announce dropped reason q w).0 w)
  called_back-called dropped listed reason q w same =
      drop_jobs-called dropped (announce dropped reason q w).1
      ∙ ap (called dropped) (announce-told dropped reason q w)
      ∙ ap (λ d. called d (told d reason (announce dropped reason q w).0 w)) same

  -- What a removal leaves: a valid queue over the rotation given; the observer was told of the
  -- jobs of the queue that match, and each of them was called back.
  pub record Removed (kept : List (Turn W)) (q : FairQueue W) (p : Job W → Bool) (reason : Text)
      (w : W) (r : ℕ × FairQueue W × W) : Type 0 where
    pub returned : r.0 ≡ length (matching p q.groups)
    pub valid : IsValid r.1
    pub remaining : view r.1 ≡ kept
    pub accounted : r.0 + r.1.count ≡ q.count
    pub called_back : r.2 ≡ called (matching p q.groups) (told (matching p q.groups) reason r.1 w)

  weigh-all_jobs : (m : Dict Text (List (Job W))) → length (all_jobs m) ≡ weigh each m
  weigh-all_jobs [] = refl
  weigh-all_jobs ((g, js) ∷ m) =
      omega (arith, length-append js (all_jobs m), weigh_jobs-each [] js, weigh-all_jobs m)

  keep-true : (js : List (Job W)) → keep (λ j. true) js ≡ js
  keep-true [] = refl
  keep-true (j ∷ js) = ap (λ k. j ∷ k) (keep-true js)

  all_jobs-matching : (m : Dict Text (List (Job W))) → all_jobs m ≡ matching (λ j. true) m
  all_jobs-matching [] = refl
  all_jobs-matching ((g, js) ∷ m) =
      ap (λ k. k ++ all_jobs m) (sym (keep-true js))
      ∙ ap (λ k. keep (λ j. true) js ++ k) (all_jobs-matching m)

  -- `DiscardAll` leaves an empty valid queue, calls `Drop` for every job that was pending, and
  -- returns their number.
  pub discard_all_removes :
      (reason : Text) (q : FairQueue W) (w : W)
      → IsValid q
      → Removed [] q (λ j. true) reason w (discard_all reason q w)
  unfolding discard_all
  discard_all_removes reason q w v =
      let dropped = all_jobs q.groups in
      let none_left : FairQueue W = record q { groups = []; order = []; ids = []; count = 0 } in
      let (same, count) = announce-view dropped reason none_left w in
      record {
        returned = ap length (all_jobs-matching q.groups);
        valid = announce-IsValid dropped reason none_left w (record {
          order_nodup = tt;
          keys_nodup = tt;
          listed = λ g. refl;
          counted = refl;
          bounded = omega arith;
          once = λ x. omega arith;
          exact = λ x. refl;
          grouped = λ g. refl;
        });
        remaining = same;
        accounted = omega (arith, count, v.counted, weigh-all_jobs q.groups);
        called_back =
            called_back-called dropped (matching (λ j. true) q.groups) reason none_left w
              (all_jobs-matching q.groups);
      }
