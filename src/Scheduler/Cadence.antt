-- ===== src/Scheduler/Cadence.antt =====
-- An Update keeps a member's deadline while its cadence is the same.
use boomerangz.Base.{
  ℕ, ◌<◌, ◌≡◌, ◌≢◌, ◌⊎◌, refl, subst, inl, inr, Bool, true, false, Option, none, some, List, [],
  ◌∷◌, ◌++◌, arith, ◌==◌, if◌then◌else◌, Bool-cases, Text, text_key, ℕ_key, ◌=?◌,
}
use boomerangz.Base.Dict.{Dict, lookup, insert, lookup-insert}
use boomerangz.Grid.{Grid, cadence}
use boomerangz.Scheduler.{
  Deadline, MemberDeadline, Entry, kept_next, old_member, time_member, time_found, time_members,
  timed_members, untimed, plan_entry,
}

-- A member of a planned root: its cadence is that of its grid and not zero, and its deadline is the old
-- one if the old cadence is the same, else the time of the Update.
pub record IsKeptFrom (now : ℕ) (previous : Option Deadline) (name : Text) (m : MemberDeadline)
    : Type 0 where
  pub span : m.span ≡ cadence m.grid
  pub lasting : 0 < m.span
  -- An old member of the same cadence gives its deadline.
  pub kept :
      (d : Deadline) (old : MemberDeadline)
      → previous ≡ some d
      → lookup name d.members ≡ some old
      → old.span ≡ m.span
      → m.next ≡ old.next
  -- An old member of another cadence does not.
  pub restarted :
      (d : Deadline) (old : MemberDeadline)
      → previous ≡ some d
      → lookup name d.members ≡ some old
      → old.span ≢ m.span
      → m.next ≡ now
  pub added :
      (previous ≡ none ⊎ ((d : Deadline) × (previous ≡ some d) × (lookup name d.members ≡ none)))
      → m.next ≡ now

old_member-some :
    (name : Text) (previous : Option Deadline) (d : Deadline) (o : Option MemberDeadline)
    → previous ≡ some d
    → lookup name d.members ≡ o
    → old_member name previous ≡ o
old_member-some name none d o is_d found = absurd (ground (arith, is_d))
old_member-some name (some e) d o is_d found = ground (arith, is_d, found)

-- What the update takes as the next deadline.
kept_next-IsKeptFrom :
    (now : ℕ) (previous : Option Deadline) (name : Text) (m : MemberDeadline)
    → m.span ≡ cadence m.grid
    → 0 < m.span
    → m.next ≡ kept_next now m.span (old_member name previous)
    → IsKeptFrom now previous name m
kept_next-IsKeptFrom now previous name m span lasting next = record {
  span = span;
  lasting = lasting;
  kept = λ d old is_d found same.
      ground (arith, next, same, old_member-some name previous d (some old) is_d found);
  restarted = λ d old is_d found other.
      ground (arith, next, other, old_member-some name previous d (some old) is_d found);
  added = λ fresh. elim fresh [
    | inl nothing ↦ ground (arith, next, nothing)
    | inr (d, is_d, missing) ↦
        ground (arith, next, old_member-some name previous d none is_d missing)
  ];
}

abbrev KeepsAll : ℕ → Option Deadline → Deadline → Type 0
KeepsAll now previous item =
    (name : Text) (m : MemberDeadline)
    → lookup name item.members ≡ some m
    → IsKeptFrom now previous name m

insert-KeepsAll :
    (now : ℕ) (previous : Option Deadline) (key : Text) (v : MemberDeadline) (item : Deadline)
    → IsKeptFrom now previous key v
    → KeepsAll now previous item
    → KeepsAll now previous
        (record item { members = insert key v item.members; order = item.order ++ key ∷ [] })
insert-KeepsAll now previous key v item k h name m e = elim (Bool-cases (key =? name)) [
  | inl same ↦
      let is_v : v ≡ m = ground (arith, e, same, lookup-insert key name v item.members) in
      let is_key : key ≡ name = ground arith in
      subst (λ n. IsKeptFrom now previous n m) is_key (subst (IsKeptFrom now previous key) is_v k)
  | inr other ↦ h name m (ground (arith, e, other, lookup-insert key name v item.members))
]

time_member-KeepsAll :
    (now : ℕ) (previous : Option Deadline) (name : Text) (g : Grid) (item : Deadline)
    → KeepsAll now previous item
    → KeepsAll now previous (time_member now previous name g item)
unfolding time_member
time_member-KeepsAll now previous name g item h =
    let v : MemberDeadline = record {
      grid = g;
      span = cadence g;
      next = kept_next now (cadence g) (old_member name previous);
    } in
    by_cadence (cadence g == 0) v (λ some_cadence.
      kept_next-IsKeptFrom now previous name v refl (ground (arith, some_cadence)) refl)
  where
    by_cadence :
        (none_given : Bool) (v : MemberDeadline)
        → (none_given ≡ false → IsKeptFrom now previous name v)
        → KeepsAll now previous (
            if none_given then item else record item {
              members = insert name v item.members;
              order = item.order ++ name ∷ [];
            })
    by_cadence true v k = h
    by_cadence false v k = insert-KeepsAll now previous name v item (k refl) h

time_found-KeepsAll :
    (now : ℕ) (previous : Option Deadline) (name : Text) (item : Deadline) (o : Option Entry)
    → KeepsAll now previous item
    → KeepsAll now previous (time_found now previous name item o)
unfolding time_found
time_found-KeepsAll now previous name item none h = h
time_found-KeepsAll now previous name item (some e) h =
    time_member-KeepsAll now previous name e.policy.grid item h

time_members-KeepsAll :
    (by_name : Dict Text Entry) (now : ℕ) (previous : Option Deadline) (names : List Text)
    (item : Deadline)
    → KeepsAll now previous item
    → KeepsAll now previous (time_members by_name now previous names item)
unfolding time_members
time_members-KeepsAll by_name now previous [] item h = h
time_members-KeepsAll by_name now previous (name ∷ names) item h =
    time_members-KeepsAll by_name now previous names
      (time_found now previous name item (lookup name by_name))
      (time_found-KeepsAll now previous name item (lookup name by_name) h)

-- A member of a root that an Update plans has the cadence of its grid, which is not zero. It keeps
-- the deadline of the old member of its name if that one had the same cadence; if it had another,
-- or if there was none, it is due at the time of the Update.
pub plan_entry-IsKeptFrom :
    (by_name : Dict Text Entry) (now : ℕ) (previous : Option Deadline) (e : Entry) (name : Text)
    (m : MemberDeadline)
    → lookup name (plan_entry by_name now previous e).members ≡ some m
    → IsKeptFrom now previous name m
unfolding plan_entry
plan_entry-IsKeptFrom by_name now previous e name m found =
    time_members-KeepsAll by_name now previous (timed_members e) (untimed previous e)
      (λ n k missing. cc missing) name m found
