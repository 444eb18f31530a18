-- ===== src/Transfer/Streams.antt =====
-- internal/transfer/plan.go: the order of a request's streams, and where they are received.
use boomerangz.Base.{
  Some, ℕ, ◌≡◌, refl, sym, ap, ◌∙◌, subst, ◌↔◌, ◌⊎◌, inl, inr, true, false, not, Option, none, some,
  List, [], ◌∷◌, ◌++◌, append-nil, arith, Bool-cases, Text, text_key, ℕ_key, ◌=?◌, is_nil, All,
}
use boomerangz.Base.Result.{ok, ◌>>◌, refuse-passed, >>=-eq-ok}
use boomerangz.Base.Sorting.{text_leb, insert_by, sort_by}
use boomerangz.Strings.{trim_prefix, slash}
use boomerangz.Names.{validate_dataset, inside, map_receive_dataset}
use boomerangz.Names.Paths.{inside_cases, inside_self, inside-below}
use boomerangz.Names.Mapping.{map_receive_dataset_confined}
use boomerangz.Prune.Order.{Some-sort_by, Some-sort_back}
use boomerangz.References.Stored.{trim_prefix-append}
use boomerangz.Transfer.{
  Member, Request, of_name, member_leb, repeats, check_members, streams, discard_of, mapped,
}

text_leb_total : (a b : Text) → text_leb a b ≡ false → text_leb b a ≡ true
text_leb_total [] b above = cc
text_leb_total (c ∷ a) [] above = refl
text_leb_total (c ∷ a) (d ∷ b) above = ground (arith, text_leb_total a b)

text_leb_trans : (a b c : Text) → text_leb a b ≡ true → text_leb b c ≡ true → text_leb a c ≡ true
text_leb_trans [] b c first second = refl
text_leb_trans (x ∷ a) [] c first second = cc
text_leb_trans (x ∷ a) (y ∷ b) [] first second = cc
text_leb_trans (x ∷ a) (y ∷ b) (z ∷ c) first second = ground (arith, text_leb_trans a b c)

text_leb_antisym : (a b : Text) → text_leb a b ≡ true → text_leb b a ≡ true → a ≡ b
text_leb_antisym [] [] first second = refl
text_leb_antisym [] (d ∷ b) first second = cc
text_leb_antisym (c ∷ a) [] first second = cc
text_leb_antisym (c ∷ a) (d ∷ b) first second = ground (arith, text_leb_antisym a b)

text_leb-longer : (a : Text) (c : ℕ) (s : Text) → text_leb (a ++ c ∷ s) a ≡ false
text_leb-longer [] c s = refl
text_leb-longer (x ∷ a) c s = ground (arith, text_leb-longer a c s)

abbrev IsSorted : List Member → Type 0
IsSorted [] = Unit
IsSorted (m ∷ ms) = All (λ n. member_leb m n ≡ true) ms × IsSorted ms

All-insert_by :
    (P : Member → Type 0) (m : Member) (ms : List Member)
    → P m
    → All P ms
    → All P (insert_by member_leb m ms)
All-insert_by P m [] here all = (here, tt)
All-insert_by P m (n ∷ ms) here all = elim (Bool-cases (member_leb m n)) [
  | inl first ↦ rw first (here, all)
  | inr later ↦ rw later (all.0, All-insert_by P m ms here all.1)
]

All-after :
    (m n : Member) (ms : List Member)
    → member_leb m n ≡ true
    → All (λ k. member_leb n k ≡ true) ms
    → All (λ k. member_leb m k ≡ true) ms
All-after m n [] first all = tt
All-after m n (k ∷ ms) first all =
    (text_leb_trans m.dataset n.dataset k.dataset first all.0, All-after m n ms first all.1)

insert_by-IsSorted :
    (m : Member) (ms : List Member) → IsSorted ms → IsSorted (insert_by member_leb m ms)
insert_by-IsSorted m [] sorted = (tt, tt)
insert_by-IsSorted m (n ∷ ms) sorted = elim (Bool-cases (member_leb m n)) [
  | inl first ↦ rw first ((first, All-after m n ms first sorted.0), sorted)
  | inr later ↦ rw later (
    All-insert_by (λ k. member_leb n k ≡ true) m ms (text_leb_total m.dataset n.dataset later)
        sorted.0,
    insert_by-IsSorted m ms sorted.1,
  )
]

sort_by-IsSorted : (ms : List Member) → IsSorted (sort_by member_leb ms)
unfolding sort_by
sort_by-IsSorted [] = tt
sort_by-IsSorted (m ∷ ms) = insert_by-IsSorted m (sort_by member_leb ms) (sort_by-IsSorted ms)

-- A stream of the root.
abbrev pub IsStream : Text → Member → Type 0
IsStream source m = (validate_dataset m.dataset ≡ ok tt) × (inside m.dataset source ≡ true)

-- No two neighbours are of one dataset.
abbrev IsApart : Option Text → List Member → Type 0
IsApart last [] = Unit
IsApart last (m ∷ ms) = (repeats last m.dataset ≡ false) × IsApart (some m.dataset) ms

check_members_sound :
    (source : Text) (last : Option Text) (ms : List Member)
    → check_members source last ms ≡ ok tt
    → All (IsStream source) ms × IsApart last ms
unfolding check_members
check_members_sound source last [] passed = (tt, tt)
check_members_sound source last (m ∷ ms) passed =
    let (none_left, valid, after_name) =
      >>=-eq-ok (of_name (validate_dataset m.dataset)) _ passed in
    let within = refuse-passed (not (inside m.dataset source)) _ after_name in
    let new = refuse-passed (repeats last m.dataset) _ within.1 in
    let rest = check_members_sound source (some m.dataset) ms new.1 in
    ((((ground arith), (ground arith)), rest.0), (new.0, rest.1))

-- Each dataset stands before those that lie in it, and no dataset stands twice.
abbrev pub ParentsFirst : List Member → Type 0
ParentsFirst [] = Unit
ParentsFirst (m ∷ ms) = All (λ n. inside m.dataset n.dataset ≡ false) ms × ParentsFirst ms

not-inside : (a b : Text) → text_leb a b ≡ true → (a =? b) ≡ false → inside a b ≡ false
not-inside a b first apart = elim (Bool-cases (inside a b)) [
  | inr outside ↦ outside
  | inl within ↦ elim (inside_cases a b within) [
    | inl same ↦ absurd (ground arith)
    | inr (t, below) ↦ absurd (ground (arith, text_leb-longer b slash t, below))
  ]
]

-- What is sorted behind a dataset that differs from its neighbour differs from all.
not-inside_later :
    (m n : Member) (ms : List Member)
    → member_leb m n ≡ true
    → (m.dataset =? n.dataset) ≡ false
    → All (λ k. member_leb n k ≡ true) ms
    → All (λ k. inside m.dataset k.dataset ≡ false) ms
not-inside_later m n [] first apart after_n = tt
not-inside_later m n (k ∷ ms) first apart after_n = (
  not-inside m.dataset k.dataset (text_leb_trans m.dataset n.dataset k.dataset first after_n.0)
      (elim (Bool-cases (m.dataset =? k.dataset)) [
        | inr other ↦ other
        | inl same ↦
            let equal : m.dataset ≡ k.dataset = ground arith in
            let back : text_leb n.dataset m.dataset ≡ true =
              subst (λ d. text_leb n.dataset d ≡ true) (sym equal) after_n.0 in
            absurd (ground (arith, text_leb_antisym m.dataset n.dataset first back))
      ]),
  not-inside_later m n ms first apart after_n.1,
)

ParentsFirst-sorted :
    (ms : List Member) (last : Option Text) → IsSorted ms → IsApart last ms → ParentsFirst ms
ParentsFirst-sorted [] last sorted apart = tt
ParentsFirst-sorted (m ∷ []) last sorted apart = (tt, tt)
ParentsFirst-sorted (m ∷ n ∷ ms) last sorted apart = (
  (
    not-inside m.dataset n.dataset sorted.0.0 apart.1.0,
    not-inside_later m n ms sorted.0.0 apart.1.0 sorted.1.0,
  ),
  ParentsFirst-sorted (n ∷ ms) (some m.dataset) sorted.1 apart.1,
)

-- The streams of a request with members are exactly these members, each of them a valid dataset in
-- the source; each stands before those that lie in it, so that a parent is sent before its
-- children, and no dataset stands twice. Such a request is not recursive.
pub streams_lem :
    (r : Request) (ms : List Member)
    → is_nil r.members ≡ false
    → streams r ≡ ok ms
    → (r.policy.send.replicate ≡ false)
      × All (IsStream r.source) ms
      × ParentsFirst ms
      × ((m : Member) → Some (λ n. n ≡ m) r.members ↔ Some (λ n. n ≡ m) ms)
unfolding streams
streams_lem r ms given done =
    let sorted = sort_by member_leb r.members in
    let flat : r.policy.send.replicate ≡ false = ground arith in
    let chain : (check_members r.source none sorted >> ok sorted) ≡ ok ms = ground arith in
    let (none_left, passed, last) = >>=-eq-ok (check_members r.source none sorted) _ chain in
    let same : sorted ≡ ms = ground arith in
    let sound = check_members_sound r.source none sorted (ground arith) in
    (
      flat,
      subst (All (IsStream r.source)) same sound.0,
      subst ParentsFirst same
          (ParentsFirst-sorted sorted none (sort_by-IsSorted r.members) sound.1),
      λ m. (
        λ there.
            subst (Some (λ n. n ≡ m)) same (Some-sort_by (λ n. n ≡ m) member_leb r.members there),
        λ there.
            Some-sort_back (λ n. n ≡ m) member_leb r.members
              (subst (Some (λ n. n ≡ m)) (sym same) there),
      ),
    )

append-cancel : (a s t : Text) → a ++ s ≡ a ++ t → s ≡ t
append-cancel [] s t same = same
append-cancel (c ∷ a) s t same = append-cancel a s t (ground arith)

-- What a mapping did: the stream is the source and a rest, and its destination the root's and it.
mapped_parts :
    (r : Request) (name root target : Text)
    → mapped r name ≡ ok (root, target)
    → (rest : Text) × (name ≡ r.source ++ rest)
      × (target ≡ root ++ rest)
      × (map_receive_dataset r.source r.destination_root (discard_of r.policy.discard) ≡ ok root)
      × ((rest ≡ []) ⊎ ((t : Text) × (rest ≡ slash ∷ t)))
unfolding mapped
mapped_parts r name root target done =
    let at = map_receive_dataset r.source r.destination_root (discard_of r.policy.discard) in
    let (found, placed, after_root) = >>=-eq-ok (of_name at) _ done in
    let within = refuse-passed (not (inside name r.source)) _ after_root in
    elim (inside_cases name r.source (ground arith)) [
      | inl same ↦ (
        [],
        same ∙ sym (append-nil r.source),
        ground
            (arith, append-nil root, trimmed name r.source [] (same ∙ sym (append-nil r.source))),
        ground arith,
        inl refl,
      )
      | inr (t, below) ↦ (
        slash ∷ t,
        below,
        ground (arith, trimmed name r.source (slash ∷ t) below),
        ground arith,
        inr (t, refl),
      )
    ]
  where
    trimmed : (name source rest : Text) → name ≡ source ++ rest → trim_prefix name source ≡ rest
    trimmed name source rest same =
        ap (λ n. trim_prefix n source) same ∙ trim_prefix-append source rest

-- The destinations of a request: the root's is a valid dataset in the configured one, each stream's
-- lies in the root's, and no two streams have the same.
pub mapped_lem :
    (r : Request) (first second root target : Text)
    → mapped r first ≡ ok (root, target)
    → (validate_dataset root ≡ ok tt)
      × (inside root r.destination_root ≡ true)
      × (inside target root ≡ true)
      × (mapped r second ≡ ok (root, target) → first ≡ second)
mapped_lem r first second root target done =
    let (rest, name, place, at, form) = mapped_parts r first root target done in
    let confined =
      map_receive_dataset_confined r.source r.destination_root (discard_of r.policy.discard) at in
    (
      confined.0,
      confined.1,
      elim form [
        | inl whole ↦
            let same : root ≡ target = sym (place ∙ ap (λ s. root ++ s) whole ∙ append-nil root) in
            subst (λ t. inside t root ≡ true) same (inside_self root)
        | inr (t, below) ↦
            subst (λ t'. inside t' root ≡ true) (sym (place ∙ ap (λ s. root ++ s) below))
              (inside-below root t)
      ],
      λ again.
          let (other, name', place', at', form') = mapped_parts r second root target again in
          name
          ∙ ap (λ s. r.source ++ s) (append-cancel root rest other (sym place ∙ place'))
          ∙ sym name',
    )
