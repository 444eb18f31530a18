-- ===== src/References/Sources.antt =====
-- internal/lifecycle/reference.go: which sources `Sources` finds.
use boomerangz.Base.{
  is_none, ◌≡◌, refl, sym, ap, ◌∙◌, subst, ◌≢◌, Bool, true, not, ◌||◌, Option, none, some, List, [],
  ◌∷◌, map, arith, Text, text_key, ℕ_key, keep, All,
}
use boomerangz.Base.Result.{Result, ok, err}
use boomerangz.Base.Dict.{lookup}
use boomerangz.Lifecycle.{State, Object, is_bookmark}
use boomerangz.References.{
  Reference, ReferenceSource, ReferenceError, hold_name, source_snapshot, source_bookmark, is_held,
  object_map, candidates, source_at, cons_source, sources_loop, sources,
}

-- The object of a name in a state.
abbrev pub object_at : State → Text → Option Object
object_at state name = lookup name (object_map state.objects [])

-- The dataset has the target's hold on its snapshot, or the bookmark.
abbrev pub is_kept : Reference → State → Text → Bool
is_kept r state dataset =
    is_held state (source_snapshot r dataset) (hold_name r)
    || not (is_none (object_at state (source_bookmark r dataset)))

-- The GUID is that of the snapshot and of the bookmark, where these exist.
abbrev pub Names : Reference → State → ReferenceSource → Type 0
Names r state s =
    (s.guid ≢ 0)
    × ((o : Object) → object_at state (source_snapshot r s.dataset) ≡ some o → o.guid ≡ s.guid)
    × ((o : Object)
        → object_at state (source_bookmark r s.dataset) ≡ some o
        → (o.guid ≡ s.guid) × (is_bookmark o.kind ≡ true))

source_at-kept :
    (r : Reference) (state : State) (dataset : Text) (snapshot bookmark : Option Object)
    (found : Option ReferenceSource)
    → source_at r state dataset snapshot bookmark ≡ ok found
    → (is_held state (source_snapshot r dataset) (hold_name r) || not (is_none bookmark))
      ≡ not (is_none found)
unfolding source_at
source_at-kept r state dataset snapshot bookmark found done = ground arith

source_at-Names :
    (r : Reference) (state : State) (dataset : Text) (snapshot bookmark : Option Object)
    (s : ReferenceSource)
    → source_at r state dataset snapshot bookmark ≡ ok (some s)
    → (s.dataset ≡ dataset)
      × (s.guid ≢ 0)
      × ((o : Object) → snapshot ≡ some o → o.guid ≡ s.guid)
      × ((o : Object) → bookmark ≡ some o → (o.guid ≡ s.guid) × (is_bookmark o.kind ≡ true))
unfolding source_at
source_at-Names r state dataset none none s done =
    (ground arith, λ zero_guid. ground arith, λ o there. cc, λ o there. cc)
source_at-Names r state dataset none (some m) s done =
    (ground arith, λ zero_guid. ground arith, λ o there. cc, λ o there. ground arith)
source_at-Names r state dataset (some p) none s done =
    (ground arith, λ zero_guid. ground arith, λ o there. ground arith, λ o there. cc)
source_at-Names r state dataset (some p) (some m) s done =
    (ground arith, λ zero_guid. ground arith, λ o there. ground arith, λ o there. ground arith)

abbrev pub datasets_of : List ReferenceSource → List Text
datasets_of found = map (λ (s : ReferenceSource). s.dataset) found

cons_source-ok :
    (s : ReferenceSource) (rest : Result ReferenceError (List ReferenceSource))
    (found : List ReferenceSource)
    → cons_source (some s) rest ≡ ok found
    → (more : List ReferenceSource) × (rest ≡ ok more) × (s ∷ more ≡ found)
cons_source-ok s (err e) found done = cc
cons_source-ok s (ok more) found done = (more, refl, ground arith)

sources_loop-lem :
    (r : Reference) (state : State) (datasets : List Text) (found : List ReferenceSource)
    → sources_loop r state (object_map state.objects []) datasets ≡ ok found
    → (datasets_of found ≡ keep (is_kept r state) datasets) × All (Names r state) found
unfolding sources_loop
sources_loop-lem r state [] found done = by_value found done
  where
    by_value :
        (found : List ReferenceSource)
        → (let l : Result ReferenceError (List ReferenceSource) = ok [] in l) ≡ ok found
        → (datasets_of found ≡ []) × All (Names r state) found
    by_value [] done = (refl, tt)
    by_value (s ∷ found) done = cc
sources_loop-lem r state (d ∷ datasets) found done =
    by_source
      (source_at r state d (object_at state (source_snapshot r d))
        (object_at state (source_bookmark r d)))
      refl done (sources_loop-lem r state datasets)
  where
    Rest : Type 0
    Rest =
        (more : List ReferenceSource)
        → sources_loop r state (object_map state.objects []) datasets ≡ ok more
        → (datasets_of more ≡ keep (is_kept r state) datasets) × All (Names r state) more

    by_source :
        (one : Result ReferenceError (Option ReferenceSource))
        → source_at r state d
            (object_at state (source_snapshot r d))
            (object_at state (source_bookmark r d))
          ≡ one
        → (let l : Result ReferenceError (List ReferenceSource) = elim one [
          | err e ↦ err e
          | ok o ↦ cons_source o (sources_loop r state (object_map state.objects []) datasets)
        ] in
            l)
          ≡ ok found
        → Rest
        → (datasets_of found ≡ keep (is_kept r state) (d ∷ datasets)) × All (Names r state) found
    by_source (err e) same done rest = absurd (ground arith)
    by_source (ok none) same done rest =
        let more = rest found done in
        (ground (arith, more.0, source_at-kept r state d _ _ none same), more.1)
    by_source (ok (some s)) same done rest =
        let (more, later, whole) = cons_source-ok s _ found done in
        let tail = rest more later in
        let n = source_at-Names r state d _ _ s same in
        let named : Names r state s = (
          n.1,
          λ o there. n.2 o (ap (λ e. object_at state (source_snapshot r e)) (sym n.0) ∙ there),
          λ o there. n.3 o (ap (λ e. object_at state (source_bookmark r e)) (sym n.0) ∙ there),
        ) in
        subst (λ l. (datasets_of l ≡ keep (is_kept r state) (d ∷ datasets)) × All (Names r state) l)
          whole
          (ground (arith, tail.0, n.0, source_at-kept r state d _ _ (some s) same), (named, tail.1))

-- `Sources` gives, in order, a source for exactly those of the stream's datasets that have the
-- target's hold on the endpoint's snapshot or the endpoint's bookmark: the stream's own dataset,
-- and for a recursive reference those below it. Each source has a GUID that is not zero and is the
-- snapshot's and the bookmark's, where these exist, and what has the bookmark's name is a bookmark.
pub sources_lem :
    (r : Reference) (state : State) (found : List ReferenceSource)
    → sources r state ≡ ok found
    → (datasets_of found ≡ keep (is_kept r state) (candidates r state)) × All (Names r state) found
unfolding sources
sources_lem r state found done = sources_loop-lem r state (candidates r state) found done
