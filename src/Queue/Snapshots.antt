-- ===== src/Queue/Snapshots.antt =====
-- The order of service: what the queue's snapshot foretells, and how long a group waits.
use boomerangz.Base.{
  ℕ, zero, suc, ◌≡◌, refl, sym, ap, ◌∙◌, subst, true, false, not, List, [], ◌∷◌, ◌++◌, map,
  append_assoc, arith, Text, text_key, ℕ_key, length, is_nil, All, contains, IsNodup, IsNodup-snoc,
}
use boomerangz.Base.Dict.{Dict, insert, lookup-insert}
use boomerangz.Jobs.{Job}
use boomerangz.Queue.{FairQueue, jobs_of, snapshot_ids, snapshot_locked, Popped, popped, pop_step}
use boomerangz.Queue.Rotation.{Turn, rotation_jobs}
use boomerangz.Queue.Valid.{IsValid, view, view_of, view_of-append}
use boomerangz.Queue.Pop.{view_of_other, pop_step_branches, PopStep, took, ended, empty}

module _ {W : Type 0} where
  turned_view :
      (g : Text) (order : List Text) (ks : List (Job W)) (m : Dict Text (List (Job W)))
      → contains order g ≡ false
      → view_of (insert g ks m) (order ++ g ∷ []) ≡ view_of m order ++ (g, ks) ∷ []
  turned_view g order ks m absent =
      let others : view_of (insert g ks m) order ≡ view_of m order =
        view_of_other g m (insert g ks m) order
          (λ h other. ground (arith, lookup-insert g h ks m, other)) absent in
      ground (arith, others, view_of-append (insert g ks m) order (g ∷ []), lookup-insert g g ks m)

  snapshot_ids-rotation :
      (fuel : ℕ) (order : List Text) (m : Dict Text (List (Job W)))
      → IsNodup order
      → snapshot_ids fuel order m ≡ map (λ (j : Job W). j.id) (rotation_jobs fuel (view_of m order))
  unfolding snapshot_ids rotation_jobs
  snapshot_ids-rotation zero order m n = refl
  snapshot_ids-rotation (suc fuel) [] m n = refl
  snapshot_ids-rotation (suc fuel) (g ∷ order) m n =
      turn (jobs_of g m) refl (snapshot_ids-rotation fuel)
    where
      Same : Type 0
      Same =
          snapshot_ids (suc fuel) (g ∷ order) m
          ≡ map (λ (j : Job W). j.id) (rotation_jobs (suc fuel) (view_of m (g ∷ order)))

      turn :
          (js : List (Job W))
          → jobs_of g m ≡ js
          → ((o : List Text) (m' : Dict Text (List (Job W)))
              → IsNodup o
              → snapshot_ids fuel o m'
                ≡ map (λ (j : Job W). j.id) (rotation_jobs fuel (view_of m' o)))
          → Same
      turn [] e ih = ground (arith, e)
      turn (j ∷ []) e ih = ground (arith, e, ih order m n.1)
      turn (j ∷ k ∷ js) e ih = ground (
        arith,
        e,
        ih (order ++ g ∷ []) (insert g (k ∷ js) m) (IsNodup-snoc order g n.0 n.1),
        turned_view g order (k ∷ js) m n.0,
      )

  abbrev gather : Popped W → List (Job W) → List (Job W)
  gather (popped j) rest = j ∷ rest
  gather _ rest = []

  -- The jobs that the next `n` looks of `Pop` give, one after the other.
  unfoldable pub drain : ℕ → FairQueue W → W → List (Job W)
  drain zero q w = []
  drain (suc n) q w = let (p, q', w') = pop_step q w in gather p (drain n q' w')

  drain_step :
      (n : ℕ) (q : FairQueue W) (w : W) {r : Popped W × FairQueue W × W}
      → PopStep q w r
      → ((j : Job W) → r.0 ≡ popped j → drain n r.1 r.2 ≡ rotation_jobs n (view r.1))
      → gather r.0 (drain n r.1 r.2) ≡ rotation_jobs (suc n) (view q)
  unfolding rotation_jobs
  drain_step n q w (took j q' v e c) ih = ground (arith, e, ih j refl)
  drain_step n q w (ended z e c) ih = ground (arith, e)
  drain_step n q w (empty z e c) ih = ground (arith, e)

  PopStep-IsValid :
      {q : FairQueue W} {w : W} {r : Popped W × FairQueue W × W}
      → PopStep q w r
      → IsValid q
      → IsValid r.1
  PopStep-IsValid (took j q' v e c) old = v
  PopStep-IsValid (ended z e c) old = old
  PopStep-IsValid (empty z e c) old = old

  -- Successive pops serve the rotation in order.
  pub drain-rotation :
      (n : ℕ) (q : FairQueue W) (w : W) → IsValid q → drain n q w ≡ rotation_jobs n (view q)
  unfolding drain
  drain-rotation zero q w v = unfold rotation_jobs in refl
  drain-rotation (suc n) q w v =
      let step = pop_step_branches q w v in
      let (p, q', w') = pop_step q w in
      drain_step n q w step (λ j e. drain-rotation n q' w' (PopStep-IsValid step v))

  PopStep-count :
      {q : FairQueue W} {w : W} {r : Popped W × FairQueue W × W} (n : ℕ)
      → PopStep q w r
      → IsValid q
      → q.count ≡ suc n
      → (j : Job W) × (r.0 ≡ popped j) × (r.1.count ≡ n)
  PopStep-count n (took j q' v e c) old k = (j, refl, omega arith)
  PopStep-count n (ended z e c) old k = absurd (omega arith)
  PopStep-count n (empty z e c) old k = absurd (omega arith)

  drain-length :
      (n : ℕ) (q : FairQueue W) (w : W) → IsValid q → q.count ≡ n → length (drain n q w) ≡ n
  unfolding drain
  drain-length zero q w v e = refl
  drain-length (suc n) q w v e =
      let step = pop_step_branches q w v in
      let (p, q', w') = pop_step q w in
      let (j, taken, left) = PopStep-count n step v e in
      ground (arith, taken, drain-length n q' w' (PopStep-IsValid step v) left)

  length-map_id : (js : List (Job W)) → length (map (λ (j : Job W). j.id) js) ≡ length js
  length-map_id [] = refl
  length-map_id (j ∷ js) = ap suc (length-map_id js)

  -- The identities of a snapshot of a valid queue are those of the jobs that successive pops give,
  -- in that order, and there is one for each pending job.
  pub snapshot_locked-drain :
      (q : FairQueue W) (w : W)
      → IsValid q
      → ((snapshot_locked q).ids ≡ map (λ (j : Job W). j.id) (drain q.count q w))
        × (length (snapshot_locked q).ids ≡ q.count)
  unfolding snapshot_locked
  snapshot_locked-drain q w v =
      let same : snapshot_ids q.count q.order q.groups
          ≡ map (λ (j : Job W). j.id) (drain q.count q w) =
        snapshot_ids-rotation q.count q.order q.groups v.order_nodup
        ∙ ap (map (λ (j : Job W). j.id)) (sym (drain-rotation q.count q w v)) in
      (same, ap length same ∙ length-map_id (drain q.count q w) ∙ drain-length q.count q w v refl)

  -- The first job of each turn.
  abbrev pub heads : List (Turn W) → List (Job W)
  heads [] = []
  heads ((g, []) ∷ r) = heads r
  heads ((g, j ∷ js) ∷ r) = j ∷ heads r

  abbrev pub IsBusy : List (Turn W) → Type 0
  IsBusy = All (λ (t : Turn W). is_nil t.1 ≡ false)

  rotation_jobs-heads :
      (before rest : List (Turn W)) (g : Text) (j : Job W) (js : List (Job W))
      → IsBusy before
      → rotation_jobs (suc (length before)) (before ++ (g, j ∷ js) ∷ rest) ≡ heads before ++ j ∷ []
  unfolding rotation_jobs
  rotation_jobs-heads [] rest g j js b = refl
  rotation_jobs-heads ((h, []) ∷ before) rest g j js b = cc (b.0)
  rotation_jobs-heads ((h, k ∷ []) ∷ before) rest g j js b =
      ap (λ l. k ∷ l) (rotation_jobs-heads before rest g j js b.1)
  rotation_jobs-heads ((h, k ∷ l ∷ ls) ∷ before) rest g j js b = ground (
    arith,
    rotation_jobs-heads before (rest ++ (h, l ∷ ls) ∷ []) g j js b.1,
    append_assoc before ((g, j ∷ js) ∷ rest) ((h, l ∷ ls) ∷ []),
  )

  IsBusy-view :
      (m : Dict Text (List (Job W))) (o order : List Text)
      → ((h : Text) → contains o h ≡ not (is_nil (jobs_of h m)))
      → ((h : Text) → contains order h ≡ true → contains o h ≡ true)
      → IsBusy (view_of m order)
  IsBusy-view m o [] l sub = tt
  IsBusy-view m o (x ∷ order) l sub =
      (ground (arith, l x, sub x), IsBusy-view m o order l (λ h k. ground (arith, sub h)))

  IsBusy-before : (before rest : List (Turn W)) → IsBusy (before ++ rest) → IsBusy before
  IsBusy-before [] rest b = tt
  IsBusy-before (t ∷ before) rest b = (b.0, IsBusy-before before rest b.1)

  -- A group waits for one job of each group ahead of it and no more: the pops up to its own give
  -- the first job of each of those, whatever else they have queued, and then its first job.
  pub drain_fair :
      (q : FairQueue W) (w : W) (before rest : List (Turn W)) (g : Text) (j : Job W)
      (js : List (Job W))
      → IsValid q
      → view q ≡ before ++ (g, j ∷ js) ∷ rest
      → drain (suc (length before)) q w ≡ heads before ++ j ∷ []
  drain_fair q w before rest g j js v e =
      drain-rotation (suc (length before)) q w v
      ∙ ap (rotation_jobs (suc (length before))) e
      ∙ rotation_jobs-heads before rest g j js (
          IsBusy-before before ((g, j ∷ js) ∷ rest)
            (subst IsBusy e (IsBusy-view q.groups q.order q.order v.listed (λ h m. m))))
