-- ===== src/Gate/Quiescent.antt =====
-- internal/lifecycle/gate.go: what the waits for a quiescent scope promise, and what wakes them.
use boomerangz.Base.{
  Some, ℕ, ◌≡◌, refl, ap, ◌⊎◌, inl, inr, Bool, true, false, ◌||◌, Option, none, some, List, [], ◌∷◌,
  ◌++◌, arith, Bool-cases, Text, text_key, ℕ_key, ◌=?◌, any, All, contains,
}
use boomerangz.Base.Dict.{Dict, lookup, get_or}
use boomerangz.Base.Result.{Result, ok, err}
use boomerangz.Names.{NameError, validate_dataset, overlaps}
use boomerangz.Gate.{
  Ended, Ticket, Scope, Gate, GateError, Look, refused, idle, asleep, Wake, context_done, changed,
  is_running, look_related, look_quiescent, wait_loop, wait_quiescent, returned, scope_of,
  new_scope,
}
use boomerangz.Gate.Valid.{IsValid}

-- No scope that is related to the dataset is enabled or has a live ticket that runs.
abbrev pub IsQuiescent : Text → Gate → Type 0
IsQuiescent dataset g =
    (i : ℕ) (t : Ticket)
    → lookup i g.tickets ≡ some t
    → t.finished ≡ false
    → overlaps t.scope dataset ≡ true
    → ((scope_of t.scope g).enabled ≡ false) × (t.running ≡ false)

any-contains :
    (p : ℕ → Bool) (xs : List ℕ) (i : ℕ) → any p xs ≡ false → contains xs i ≡ true → p i ≡ false
any-contains p [] i nothing there = cc
any-contains p (x ∷ xs) i nothing there = elim (Bool-cases (x =? i)) [
  | inl same ↦ ground (arith, any-contains p xs i)
  | inr other ↦ ground (arith, any-contains p xs i)
]

look_related-idle :
    (dataset : Text) (heap : Dict ℕ Ticket) (scopes : Dict Text Scope) (running : Bool)
    (changes : List (Text × ℕ))
    → look_related dataset heap scopes running changes ≡ idle
    → (running ≡ false)
      × ((name : Text)
          → overlaps name dataset ≡ true
          → ((get_or name scopes new_scope).enabled ≡ false)
            × (any (is_running heap) (get_or name scopes new_scope).members ≡ false))
unfolding look_related
look_related-idle dataset heap [] running changes look =
    (ground arith, λ name related. (refl, refl))
look_related-idle dataset heap ((name, s) ∷ scopes) running changes look =
    elim (Bool-cases (overlaps name dataset)) [
      | inr apart ↦
          let rest = look_related-idle dataset heap scopes running changes (ground arith) in
          (
            rest.0,
            λ other related. elim (Bool-cases (name =? other)) [
              | inl same ↦
                  absurd (ground (arith, ap (λ n. overlaps n dataset) (names name other same)))
              | inr further ↦ ground (arith, rest.1 other related)
            ],
          )
      | inl related ↦
          let rest =
            look_related-idle dataset heap scopes (running || any (is_running heap) s.members)
              (changes ++ (name, s.signals) ∷ []) (ground arith) in
          (
            ground (arith, rest.0),
            λ other near. elim (Bool-cases (name =? other)) [
              | inl same ↦ (ground (arith, rest.0), ground (arith, rest.0))
              | inr further ↦ ground (arith, rest.1 other near)
            ],
          )
    ]
  where
    names : (a b : Text) → (a =? b) ≡ true → a ≡ b
    names a b same = ground arith

look_quiescent-IsQuiescent :
    (dataset : Text) (g : Gate)
    → IsValid g
    → look_quiescent dataset g ≡ idle
    → IsQuiescent dataset g
unfolding look_quiescent
look_quiescent-IsQuiescent dataset g v look i t found live related =
    let off = (look_related-idle dataset g.tickets g.scopes false [] look).1 t.scope related in
    (
      off.0,
      ground (
        arith,
        v.registered i t.scope,
        any-contains (is_running g.tickets) (scope_of t.scope g).members i off.1,
      ),
    )

-- The gates that the rounds of a wait may look at.
abbrev pub seen : Gate → List Wake → List Gate
seen g [] = g ∷ []
seen g (context_done why ∷ wakes) = g ∷ []
seen g (changed g' ∷ wakes) = g ∷ seen g' wakes

-- One round returned without an error: it saw an idle gate, or it slept and a later one did.
round-saw :
    (l : Look) (context : Option Ended) (rest : Option (Result GateError ℕ)) {n : ℕ}
    → (let o : Option (Result GateError ℕ) = elim l [
      | refused e ↦ some (err e)
      | idle ↦ some (returned context)
      | asleep changes ↦ rest
    ] in
        o)
      ≡ some (ok n)
    → ((context ≡ none) × (l ≡ idle)) ⊎ (rest ≡ some (ok n))
round-saw (refused e) context rest done = absurd (ground arith)
round-saw idle context rest done = inl (ground arith, refl)
round-saw (asleep changes) context rest done = inr done

wait_loop-saw :
    (look : Gate → Look) (context : Option Ended) (g : Gate) (wakes : List Wake) {n : ℕ}
    → wait_loop look context g wakes ≡ some (ok n)
    → (context ≡ none) × Some (λ h. look h ≡ idle) (seen g wakes)
unfolding wait_loop
wait_loop-saw look context g [] done = elim (round-saw (look g) context none done) [
  | inl (live, saw) ↦ (live, inl saw)
  | inr nothing ↦ absurd (ground arith)
]
wait_loop-saw look context g (context_done why ∷ wakes) done =
    elim (round-saw (look g) context (some (err (GateError.ended why))) done) [
      | inl (live, saw) ↦ (live, inl saw)
      | inr nothing ↦ absurd (ground arith)
    ]
wait_loop-saw look context g (changed g' ∷ wakes) done =
    elim (round-saw (look g) context (wait_loop look context g' wakes) done) [
      | inl (live, saw) ↦ (live, inl saw)
      | inr rest ↦ let later = wait_loop-saw look context g' wakes rest in (later.0, inr later.1)
    ]

Some-All :
    (P Q : Gate → Type 0) (R : Gate → Type 0)
    → ((g : Gate) → P g → Q g → R g)
    → (gs : List Gate) → All P gs
    → Some Q gs
    → Some R gs
Some-All P Q R combine [] all one = one
Some-All P Q R combine (g ∷ gs) all (inl now) = inl (combine g all.0 now)
Some-All P Q R combine (g ∷ gs) all (inr later) = inr (Some-All P Q R combine gs all.1 later)

-- Where every gate that a wait looks at is valid, `WaitQuiescent` returns without an error only if
-- its context has not ended and one of these gates is quiescent: there no live ticket runs in a
-- scope that is the dataset, an ancestor or a descendant of it, and no such ticket's scope is
-- enabled.
pub wait_quiescent-IsQuiescent :
    (dataset : Text) (context : Option Ended) (g : Gate) (wakes : List Wake) (n : ℕ)
    → All IsValid (seen g wakes)
    → wait_quiescent dataset context g wakes ≡ some (ok n)
    → (context ≡ none) × Some (IsQuiescent dataset) (seen g wakes)
unfolding wait_quiescent
wait_quiescent-IsQuiescent dataset context g wakes n valid done =
    let saw =
      wait_loop-saw (look_quiescent dataset) context g wakes
        (passed (validate_dataset dataset) done) in
    (
      saw.0,
      Some-All IsValid (λ h. look_quiescent dataset h ≡ idle) (IsQuiescent dataset)
          (λ h v look. look_quiescent-IsQuiescent dataset h v look) (seen g wakes) valid saw.1,
    )
  where
    passed :
        (r : Result NameError (Unit {0}))
        → (let o : Option (Result GateError ℕ) = elim r [
          | err e ↦ some (err (GateError.bad_name e))
          | ok _ ↦ wait_loop (look_quiescent dataset) context g wakes
        ] in
            o)
          ≡ some (ok n)
        → wait_loop (look_quiescent dataset) context g wakes ≡ some (ok n)
    passed (err e) done = absurd (ground arith)
    passed (ok _) done = done
