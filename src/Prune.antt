-- ===== src/Prune.antt =====
-- internal/lifecycle/prune.go: which snapshots a retention grid keeps, and when one is due.
-- A grid is parsed, so a window's end fits an int64 (its horizon does), and no sum wraps around.
pub mod Loop
pub mod Order
pub mod Safety
pub mod Kept
pub mod Cover
mod Examples
use boomerangz.Base.Sorting.{text_leb, sort_by}
use boomerangz.Base.{
  is_none, ℕ, zero, suc, ◌+◌, ◌-◌, ◌*◌, ◌/◌, ◌%◌, ◌^◌, ◌≤◌, ◌<◌, ◌≡◌, refl, sym, ap, ◌∙◌, subst,
  ◌≢◌, ◌↔◌, ◌⊎◌, inl, inr, Bool, true, false, not, ◌&&◌, ◌||◌, Option, none, some, List, [], ◌∷◌,
  ◌++◌, map, append_assoc, append-nil, arith, ltb, leb, ◌==◌, if◌then◌else◌, Bool-cases,
  Option-cases, Text, Key, text_dec, text_key, ℕ_key, ◌=?◌, codes, length, is_nil, length-append,
  keep, any, every, All, All-append, contains, remove, IsNodup, contains-append, contains-remove,
  IsNodup-remove, IsNodup-snoc,
}
use native.Mathlib.Decide.{ℕ_discrete}
use boomerangz.Base.Result.{Result, ok, err, ◌>>=◌, ◌>>◌, refuse, is_ok}
use boomerangz.Strings.{has_prefix}
use boomerangz.Names.{validate_dataset}
use boomerangz.Grid.{Bucket, Grid, max_int64, cadence}
use boomerangz.Ownership.{Snapshot, Metadata, ownership, valid_id}

pub data Reason : Type 0 where
  foreign too_old oldest duplicate newest_owned held cloned resumed : Reason

pub record Decision : Type 0 where
  pub snapshot : Text
  pub guid : ℕ
  pub destroy : Bool
  pub reason : Reason

pub data PruneError : Type 0 where
  bad_dataset bad_inputs out_of_scope : PruneError

pub record Candidate : Type 0 where
  pub snapshot : Snapshot
  pub created : ℕ
  pub owned : Bool

-- A window of a grid: its bucket's position, and its number in that bucket.
pub record Window : Type 0 where
  pub group : ℕ
  pub index : ℕ

unfoldable pub window_dec : Discrete Window
unfolding ℕ_discrete
window_dec = hlevel ℕ_discrete

instance abbrev pub window_key : Key Window
window_key = record { dec = window_dec }

-- A failed proof leaves the zero metadata.
abbrev pub candidate_of : Text → Snapshot → Candidate
candidate_of lineage s = elim (ownership s lineage) [
  | ok m ↦ record { snapshot = s; created = m.created; owned = true }
  | err e ↦ record { snapshot = s; created = 0; owned = false }
]

-- The collecting loop, with the names it has seen.
unfoldable pub collect :
    Text → Text → List Text → List Snapshot → Result PruneError (List Candidate)
collect dataset lineage seen [] = ok []
collect dataset lineage seen (s ∷ ss) =
    let rest = collect dataset lineage (s.name ∷ seen) ss in
    if not (has_prefix s.name (dataset ++ codes "@")) || contains seen s.name
    then err PruneError.out_of_scope
    else (rest >>= λ items. ok (candidate_of lineage s ∷ items))

-- The anchor that the loop leaves: the latest creation time of an owned snapshot.
unfoldable pub anchor_from : ℕ → List Candidate → ℕ
anchor_from anchor [] = anchor
anchor_from anchor (c ∷ cs) =
    anchor_from (if c.owned && ltb anchor c.created then c.created else anchor) cs

abbrev pub candidate_leb : Candidate → Candidate → Bool
candidate_leb a b =
    ltb a.created b.created || (a.created == b.created && text_leb a.snapshot.name b.snapshot.name)

-- The position of the last owned candidate; Go's -1 is `none`.
unfoldable pub newest_from : ℕ → List Candidate → Option ℕ
newest_from i [] = none
newest_from i (c ∷ cs) =
    let later = newest_from (suc i) cs in
    if is_none later then (if c.owned then some i else none) else later

-- `time.Time.Sub`, which saturates.
abbrev pub time_sub : ℕ → ℕ → ℕ
time_sub a b = if ltb max_int64 (a - b) then max_int64 else a - b

-- The loop over the buckets: the window that an age lies in.
unfoldable pub place : ℕ → ℕ → ℕ → List Bucket → Option Window
place age offset group [] = none
place age offset group (b ∷ bs) =
    let end = offset + b.count * b.span in
    let later = place age end (suc group) bs in
    if leb offset age && ltb age end
    then some (record { group = group; index = (age - offset) / b.span })
    else later

-- What the window says, and the windows won so far.
unfoldable pub win : Option Window → List Window → (Bool × Reason) × List Window
win none winners = ((true, Reason.too_old), winners)
win (some w) winners =
    if contains winners w
    then ((true, Reason.duplicate), winners)
    else ((false, Reason.oldest), w ∷ winners)

-- What overrides the window.
unfoldable pub spare : Bool → Snapshot → Bool × Reason → Bool × Reason
spare is_newest s verdict =
    let v = if is_newest then (false, Reason.newest_owned) else verdict in
    let v = if is_nil s.holds then v else (false, Reason.held) in
    let v = if is_nil s.clones then v else (false, Reason.cloned) in
    if s.resume_required then (false, Reason.resumed) else v

abbrev pub window_of : ℕ → List Bucket → Candidate → Option Window
window_of anchor buckets c = place (time_sub anchor c.created) 0 0 buckets

-- One round of the deciding loop, for an owned candidate or another.
unfoldable pub judge :
    ℕ → List Bucket → Bool → List Window → Candidate → (Bool × Reason) × List Window
unfolding win spare
judge anchor buckets is_newest winners c =
    let (verdict, after) = win (window_of anchor buckets c) winners in
    if c.owned
    then (spare is_newest c.snapshot verdict, after)
    else ((false, Reason.foreign), winners)

abbrev pub is_at : Option ℕ → ℕ → Bool
is_at none i = false
is_at (some n) i = i == n

unfoldable pub decide :
    ℕ → List Bucket → Option ℕ → ℕ → List Window → List Candidate → List Decision
decide anchor buckets last i winners [] = []
decide anchor buckets last i winners (c ∷ cs) =
    let j = judge anchor buckets (is_at last i) winners c in
    record { snapshot = c.snapshot.name; guid = c.snapshot.guid; destroy = j.0.0; reason = j.0.1 }
    ∷ decide anchor buckets last (suc i) j.1 cs

abbrev pub decision_leb : Decision → Decision → Bool
decision_leb a b = text_leb a.snapshot b.snapshot

-- What is decided of the collected candidates, before the decisions are sorted.
unfoldable pub decide_all : List Bucket → List Candidate → List Decision
decide_all buckets items =
    let sorted = sort_by candidate_leb items in
    decide (anchor_from 0 items) buckets (newest_from 0 sorted) 0 [] sorted

-- `PlanPrune`.
unfoldable pub plan_prune : Text → Text → Grid → List Snapshot → Result PruneError (List Decision)
plan_prune dataset lineage grid snapshots =
    refuse (not (is_ok (validate_dataset dataset))) PruneError.bad_dataset
    >> (refuse (not (valid_id lineage) || cadence grid == 0) PruneError.bad_inputs
        >> (collect dataset lineage [] snapshots >>= λ items.
            ok (sort_by decision_leb (decide_all grid.buckets items))))

-- The loop of `SnapshotDue`: the latest creation time of an owned snapshot, from `newest` on.
unfoldable pub newest_created : Text → Text → ℕ → List Snapshot → Result PruneError ℕ
newest_created dataset lineage newest [] = ok newest
newest_created dataset lineage newest (s ∷ ss) =
    let c = candidate_of lineage s in
    let rest =
      newest_created dataset lineage (if c.owned && ltb newest c.created then c.created else newest)
        ss in
    if not (has_prefix s.name (dataset ++ codes "@")) then err PruneError.out_of_scope else rest

-- `now.Sub(newest) > cadence`; a time before the newest gives a negative difference.
unfoldable pub snapshot_due : ℕ → Text → Text → Grid → List Snapshot → Result PruneError Bool
snapshot_due now dataset lineage grid snapshots =
    refuse (not (is_ok (validate_dataset dataset))) PruneError.bad_dataset
    >> (refuse (not (valid_id lineage) || cadence grid == 0 || now == 0) PruneError.bad_inputs
        >> (newest_created dataset lineage 0 snapshots >>= λ newest.
            ok (newest == 0 || ltb (cadence grid) (time_sub now newest))))
