-- ===== src/Prune/Loop.antt =====
-- Pruning: what one pass over the candidates, from the oldest on, destroys and keeps.
use boomerangz.Base.{
  Some, ℕ, suc, ◌≤◌, ◌≡◌, refl, sym, ap, ◌∙◌, ◌⊎◌, inl, inr, Bool, true, false, Option, none, some,
  List, [], ◌∷◌, arith, Bool-cases, Option-cases, text_key, ℕ_key, is_nil, All, contains,
}
use boomerangz.Grid.{Bucket}
use boomerangz.Prune.{
  Candidate, Decision, Window, window_key, window_of, judge, win, spare, decide, newest_from, is_at,
}
use boomerangz.Prune.Order.{All-at, RisesFrom, Rises-later}

-- A candidate is kept when a decision of its name does not destroy it.
abbrev pub KeptIn : Candidate → List Decision → Type 0
KeptIn c ds = Some (λ d. (d.snapshot ≡ c.snapshot.name) × (d.destroy ≡ false)) ds

-- What is true of a candidate that a decision destroys.
pub record IsDestroyable (c : Candidate) (d : Decision) : Type 0 where
  pub named : d.snapshot ≡ c.snapshot.name
  pub guid : d.guid ≡ c.snapshot.guid
  pub owned : c.owned ≡ true
  pub unheld : is_nil c.snapshot.holds ≡ true
  pub uncloned : is_nil c.snapshot.clones ≡ true
  pub not_resumed : c.snapshot.resume_required ≡ false

module _ (anchor : ℕ) (buckets : List Bucket) where
  judge_destroys :
      (n : Bool) (winners : List Window) (c : Candidate) {d : Decision}
      → (judge anchor buckets n winners c).0.0 ≡ true
      → d.snapshot ≡ c.snapshot.name
      → d.guid ≡ c.snapshot.guid
      → IsDestroyable c d
  unfolding judge win spare
  judge_destroys n winners c h named guid = record {
    named = named;
    guid = guid;
    owned = ground arith;
    unheld = ground arith;
    uncloned = ground arith;
    not_resumed = ground arith;
  }

  judge_newest :
      (winners : List Window) (c : Candidate) → (judge anchor buckets true winners c).0.0 ≡ false
  unfolding judge win spare
  judge_newest winners c = ground arith

  pub decide_destroys :
      (last : Option ℕ) (i : ℕ) (winners : List Window) (cs : List Candidate) (d : Decision)
      → Some (λ e. e ≡ d) (decide anchor buckets last i winners cs)
      → d.destroy ≡ true
      → Some (λ c. IsDestroyable c d) cs
  unfolding decide
  decide_destroys last i winners [] d h k = elim h [ ]
  decide_destroys last i winners (c ∷ cs) d h k = elim h [
    | inl e ↦ inl (
        judge_destroys (is_at last i) winners c (ap (λ (x : Decision). x.destroy) e ∙ k)
          (sym (ap (λ (x : Decision). x.snapshot) e)) (sym (ap (λ (x : Decision). x.guid) e)))
    | inr later ↦ inr (
        decide_destroys last (suc i) (judge anchor buckets (is_at last i) winners c).1 cs d later k)
  ]

  none_owned :
      (lo i : ℕ) (cs : List Candidate)
      → newest_from i cs ≡ none
      → All (λ (c : Candidate). (c.owned ≡ false) ⊎ (c.created ≤ lo)) cs
  unfolding newest_from
  none_owned lo i [] h = tt
  none_owned lo i (c ∷ cs) h = elim (Option-cases (newest_from (suc i) cs)) [
    | inl e ↦ (inl (ground arith), none_owned lo (suc i) cs e)
    | inr (m, e) ↦ absurd (ground arith)
  ]

  -- A candidate that is owned and kept, and none that is owned is younger.
  pub record NewestKept (cs : List Candidate) (ds : List Decision) : Type 0 where
    pub candidate : Candidate
    pub member : Some (λ c. c ≡ candidate) cs
    pub owned : candidate.owned ≡ true
    pub kept : KeptIn candidate ds
    pub newest : All (λ (c : Candidate). (c.owned ≡ false) ⊎ (c.created ≤ candidate.created)) cs

  pub newest_kept :
      (lo i n : ℕ) (winners : List Window) (cs : List Candidate)
      → RisesFrom lo cs
      → newest_from i cs ≡ some n
      → NewestKept cs (decide anchor buckets (some n) i winners cs)
  unfolding decide newest_from
  newest_kept lo i n winners [] h e = absurd (ground arith)
  newest_kept lo i n winners (c ∷ cs) h e = elim (Option-cases (newest_from (suc i) cs)) [
    | inl nothing ↦
        let at : is_at (some n) i ≡ true = ground arith in
        record {
          candidate = c;
          member = inl refl;
          owned = ground arith;
          kept = inl (refl, rw at (judge_newest winners c));
          newest = (inr (omega arith), none_owned c.created (suc i) cs nothing);
        }
    | inr (m, later) ↦
        let r =
          newest_kept c.created (suc i) n (judge anchor buckets (is_at (some n) i) winners c).1 cs
            h.1 (ground arith) in
        record {
          candidate = r.candidate;
          member = inr r.member;
          owned = r.owned;
          kept = inr r.kept;
          newest = (
            inr (
                All-at (λ (d : Candidate). c.created ≤ d.created) cs r.member
                  (Rises-later c.created cs h.1)),
            r.newest,
          );
        }
  ]

  -- A kept candidate of a window that is no younger than another one of it.
  pub record WindowKept (w : Window) (c : Candidate) (cs : List Candidate) (ds : List Decision)
      : Type 0 where
    pub candidate : Candidate
    pub member : Some (λ k. k ≡ candidate) cs
    pub owned : candidate.owned ≡ true
    pub inside : window_of anchor buckets candidate ≡ some w
    pub older : candidate.created ≤ c.created
    pub kept : KeptIn candidate ds

  judge_wins :
      (n : Bool) (winners : List Window) (c : Candidate) (w : Window)
      → c.owned ≡ true
      → window_of anchor buckets c ≡ some w
      → (contains winners w ≡ true) ⊎ ((judge anchor buckets n winners c).0.0 ≡ false)
  unfolding judge win spare
  judge_wins n winners c w o h = elim (Bool-cases (contains winners w)) [
    | inl won ↦ inl won
    | inr fresh ↦ inr (ground arith)
  ]

  win_winners :
      (o : Option Window) (winners : List Window) (w : Window)
      → contains (win o winners).1 w ≡ true
      → (contains winners w ≡ true) ⊎ ((o ≡ some w) × ((win o winners).0.0 ≡ false))
  unfolding win
  win_winners none winners w h = inl h
  win_winners (some v) winners w h = elim (Bool-cases (contains winners v)) [
    | inl won ↦ inl (ground arith)
    | inr fresh ↦ elim (Bool-cases (contains winners w)) [
      | inl before ↦ inl before
      | inr other ↦ inr (ground arith, ground arith)
    ]
  ]

  judge_winners :
      (n : Bool) (winners : List Window) (c : Candidate) (w : Window)
      → contains (judge anchor buckets n winners c).1 w ≡ true
      → (contains winners w ≡ true)
        ⊎ ((c.owned ≡ true)
            × (window_of anchor buckets c ≡ some w)
            × ((judge anchor buckets n winners c).0.0 ≡ false))
  unfolding judge spare
  judge_winners n winners c w h = elim (Bool-cases c.owned) [
    | inl o ↦ elim (win_winners (window_of anchor buckets c) winners w (ground arith)) [
      | inl before ↦ inl before
      | inr (inside, kept) ↦ inr (o, inside, ground arith)
    ]
    | inr o ↦ inl (ground arith)
  ]

  pub window_kept :
      (lo : ℕ) (last : Option ℕ) (i : ℕ) (winners : List Window) (cs : List Candidate)
      (c : Candidate) (w : Window)
      → RisesFrom lo cs
      → Some (λ k. k ≡ c) cs
      → c.owned ≡ true
      → window_of anchor buckets c ≡ some w
      → (contains winners w ≡ true) ⊎ WindowKept w c cs (decide anchor buckets last i winners cs)
  unfolding decide
  window_kept lo last i winners [] c w r m o h = elim m [ ]
  window_kept lo last i winners (x ∷ xs) c w r m o h = elim m [
    | inl e ↦
        let owned : x.owned ≡ true = ap (λ (k : Candidate). k.owned) e ∙ o in
        let inside : window_of anchor buckets x ≡ some w = ap (window_of anchor buckets) e ∙ h in
        elim (judge_wins (is_at last i) winners x w owned inside) [
          | inl won ↦ inl won
          | inr kept ↦ inr (record {
            candidate = x;
            member = inl refl;
            owned = owned;
            inside = inside;
            older = omega (arith, ap (λ (k : Candidate). k.created) e);
            kept = inl (refl, kept);
          })
        ]
    | inr later ↦
        let after = (judge anchor buckets (is_at last i) winners x).1 in
        elim (window_kept x.created last (suc i) after xs c w r.1 later o h) [
          | inl won ↦ elim (judge_winners (is_at last i) winners x w won) [
            | inl before ↦ inl before
            | inr (owned, inside, kept) ↦ inr (record {
              candidate = x;
              member = inl refl;
              owned = owned;
              inside = inside;
              older =
                  All-at (λ (d : Candidate). x.created ≤ d.created) xs later
                    (Rises-later x.created xs r.1);
              kept = inl (refl, kept);
            })
          ]
          | inr k ↦ inr (record {
            candidate = k.candidate;
            member = inr k.member;
            owned = k.owned;
            inside = k.inside;
            older = k.older;
            kept = inr k.kept;
          })
        ]
  ]
