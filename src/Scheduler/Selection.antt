-- ===== src/Scheduler/Selection.antt =====
-- What a round of Next selects.
use boomerangz.Base.{
  ℕ, ◌≤◌, ◌<◌, ◌≡◌, refl, sym, ap, subst, ◌⊎◌, inl, inr, true, false, not, ◌&&◌, ◌||◌, some, [],
  ◌∷◌, arith, ltb, leb, ◌==◌, Bool-cases, Text, text_key, ℕ_key, is_nil, All, contains, IsNodup,
}
use boomerangz.Base.Dict.{Dict, lookup, insert, keys, lookup-absent}
use boomerangz.Scheduler.{Deadline, Scheduler, earliest, schedule}
use boomerangz.Scheduler.Rounds.{
  Look, idle, wait_until, fires, select_from, round_from, start_root, next_round,
}

-- A root with a deadline, by its name; the zero time is no deadline.
abbrev pub IsTimed : Text × Deadline → Type 0
IsTimed (name, d) = (is_nil name ≡ false) × (0 < earliest d)

-- A root that is pending, or whose deadline is no earlier.
abbrev pub IsLater : ℕ → Text × Deadline → Type 0
IsLater at (name, d) = (d.pending ≡ true) ⊎ ((0 < at) × (at ≤ earliest d))

-- A root that may fire, and its deadline.
pub record IsChosen (after : Text × ℕ) (entries : Dict Text Deadline) : Type 0 where
  pub root : Deadline
  pub found : lookup after.0 entries ≡ some root
  pub awake : root.pending ≡ false
  pub same : earliest root ≡ after.1
  pub named : is_nil after.0 ≡ false
  pub timed : 0 < after.1

-- What the selection comes to, from a selection so far on.
record Selected (before after : Text × ℕ) (entries : Dict Text Deadline) : Type 0 where
  chosen : (after ≡ before) ⊎ IsChosen after entries
  no_earlier : All (IsLater after.1) entries
  bound : (before.1 ≡ 0) ⊎ ((after.1 ≤ before.1) × (0 < after.1))

in_tail :
    (name key : Text) (d e : Deadline) (entries : Dict Text Deadline)
    → contains (keys entries) name ≡ false
    → lookup key entries ≡ some e
    → lookup key ((name, d) ∷ entries) ≡ some e
in_tail name key d e entries fresh found = ground (arith, found, lookup-absent name entries fresh)

IsChosen-later :
    (name : Text) (d : Deadline) (entries : Dict Text Deadline) (after : Text × ℕ)
    → contains (keys entries) name ≡ false
    → IsChosen after entries
    → IsChosen after ((name, d) ∷ entries)
IsChosen-later name d entries after fresh c = record {
  root = c.root;
  found = in_tail name after.0 d c.root entries fresh c.found;
  awake = c.awake;
  same = c.same;
  named = c.named;
  timed = c.timed;
}

passed_on :
    (best : Text × ℕ) (name : Text) (d : Deadline) (entries : Dict Text Deadline)
    → contains (keys entries) name ≡ false
    → (d.pending || not (best.1 == 0) && leb best.1 (earliest d)) ≡ true
    → (after : Text × ℕ) → Selected best after entries
    → Selected best after ((name, d) ∷ entries)
passed_on best name d entries fresh passed after r = record {
  chosen = elim r.chosen [
    | inl same ↦ inl same
    | inr c ↦ inr (IsChosen-later name d entries after fresh c)
  ];
  no_earlier = (
    elim (Bool-cases d.pending) [
      | inl asleep ↦ inl asleep
      | inr awake ↦ elim r.bound [
        | inl none_yet ↦ absurd (ground arith)
        | inr (le, pos) ↦ inr (pos, ground arith)
      ]
    ],
    r.no_earlier,
  );
  bound = r.bound;
}

taken_on :
    (best : Text × ℕ) (name : Text) (d : Deadline) (entries : Dict Text Deadline)
    → contains (keys entries) name ≡ false
    → IsTimed (name, d)
    → (d.pending || not (best.1 == 0) && leb best.1 (earliest d)) ≡ false
    → (after : Text × ℕ) → Selected (name, earliest d) after entries
    → Selected best after ((name, d) ∷ entries)
taken_on best name d entries fresh timed taken after r = record {
  chosen = elim r.chosen [
    | inl same ↦ inr (
        subst (λ a. IsChosen a ((name, d) ∷ entries)) (sym same)
          (record {
            root = d;
            found = ground arith;
            awake = ground arith;
            same = refl;
            named = timed.0;
            timed = timed.1;
          }))
    | inr c ↦ inr (IsChosen-later name d entries after fresh c)
  ];
  no_earlier = (
    elim r.bound [
      | inl nothing ↦ absurd (omega (arith, nothing, timed.1))
      | inr (le, pos) ↦ inr (pos, le)
    ],
    r.no_earlier,
  );
  bound = elim (Bool-cases (best.1 == 0)) [
    | inl none_yet ↦ inl (ground arith)
    | inr some_best ↦ elim r.bound [
      | inl nothing ↦ absurd (omega (arith, nothing, timed.1))
      | inr (le, pos) ↦ inr (ground arith, pos)
    ]
  ];
}

select_from-Selected :
    (best : Text × ℕ) (entries : Dict Text Deadline)
    → IsNodup (keys entries)
    → All IsTimed entries
    → Selected best (select_from best entries) entries
unfolding select_from
select_from-Selected best [] n h = record {
  chosen = inl refl;
  no_earlier = tt;
  bound = elim (Bool-cases (best.1 == 0)) [
    | inl none_yet ↦ inl (ground arith)
    | inr later ↦ inr (ground arith)
  ];
}
select_from-Selected best ((name, d) ∷ entries) n h =
    elim (Bool-cases (d.pending || not (best.1 == 0) && leb best.1 (earliest d))) [
      | inl passed ↦ rw passed (
          passed_on best name d entries n.0 passed (select_from best entries)
            (select_from-Selected best entries n.1 h.1))
      | inr taken ↦ rw taken (
          taken_on best name d entries n.0 h.0 taken (select_from (name, earliest d) entries)
            (select_from-Selected (name, earliest d) entries n.1 h.1))
    ]

-- What a round of Next does at a time, with the scheduler that it leaves.
pub data Round (now : ℕ) (s : Scheduler) : Look → Scheduler → Type 0 where
  rests : All (λ (e : Text × Deadline). e.1.pending ≡ true) s.entries → Round now s idle s
  sleeps :
      (name : Text) (d : Deadline)
      → lookup name s.entries ≡ some d
      → d.pending ≡ false
      → now < earliest d
      → All (IsLater (earliest d)) s.entries
      → Round now s (wait_until (earliest d)) s
  starts :
      (name : Text) (d : Deadline)
      → lookup name s.entries ≡ some d
      → d.pending ≡ false
      → earliest d ≤ now
      → All (IsLater (earliest d)) s.entries
      → Round now s
          (fires (schedule name now (record d { pending = true })))
          (record s { entries = insert name (record d { pending = true }) s.entries })

All-asleep :
    (entries : Dict Text Deadline)
    → All (IsLater 0) entries
    → All (λ (e : Text × Deadline). e.1.pending ≡ true) entries
All-asleep [] h = tt
All-asleep ((name, d) ∷ entries) (h, k) = (
  elim h [ inl asleep ↦ asleep | inr (pos, le) ↦ absurd (omega (arith, pos)) ],
  All-asleep entries k,
)

round_of :
    (now : ℕ) (s : Scheduler) (after : Text × ℕ)
    → Selected ([], 0) after s.entries
    → let r = round_from now s after in Round now s r.0 r.1
unfolding round_from start_root
round_of now s after r = elim r.chosen [
  | inl none_yet ↦
      let found : round_from now s after ≡ (idle, s) = ground (arith, none_yet) in
      subst (λ (p : Look × Scheduler). Round now s p.0 p.1) (sym found)
        (rests (
          All-asleep s.entries (
            subst (λ t. All (IsLater t) s.entries) (ap (λ (p : Text × ℕ). p.1) none_yet)
              r.no_earlier)))
  | inr c ↦ elim (Bool-cases (ltb now after.1)) [
    | inl ahead ↦
        let found : round_from now s after ≡ (wait_until after.1, s) = ground (arith, c.named) in
        subst (λ (p : Look × Scheduler). Round now s p.0 p.1) (sym found)
          (subst (λ at. Round now s (wait_until at) s) c.same
            (sleeps after.0 c.root c.found c.awake (ground (arith, c.same))
              (subst (λ t. All (IsLater t) s.entries) (sym c.same) r.no_earlier)))
    | inr passed ↦
        let found : round_from now s after ≡ start_root now s after.0 (some c.root) =
          ground (arith, c.named, c.found) in
        subst (λ (p : Look × Scheduler). Round now s p.0 p.1) (sym found)
          (starts after.0 c.root c.found c.awake (ground (arith, c.same))
            (subst (λ t. All (IsLater t) s.entries) (sym c.same) r.no_earlier))
  ]
]

-- With entries of different names that have deadlines, a round of Next rests when every root is
-- pending. Else there is a root that is not pending and has the earliest deadline of those that are
-- not: the round sleeps until just this time when it lies ahead, and else starts this root and
-- leaves it pending.
pub next_round-Round :
    (now : ℕ) (s : Scheduler)
    → IsNodup (keys s.entries)
    → All IsTimed s.entries
    → Round now s (next_round now s).0 (next_round now s).1
unfolding next_round
next_round-Round now s n h =
    round_of now s (select_from ([], 0) s.entries) (select_from-Selected ([], 0) s.entries n h)
