-- ===== src/Ownership/Adoption.antt =====
-- Adopt: the lineage it finds is the only one that the snapshots prove.
use boomerangz.Base.{
  ◌≡◌, refl, sym, ◌∙◌, subst, ◌≢◌, ◌⊎◌, inl, inr, true, false, not, ◌&&◌, ◌||◌, List, [], ◌∷◌,
  arith, if◌then◌else◌, Bool-cases, Text, text_key, ℕ_key, ◌=?◌, is_nil, All,
}
use boomerangz.Base.Result.{ok, err, is_ok, >>=-eq-ok, Result-cases, refuse-passed}
use boomerangz.Ownership.{
  Snapshot, Property, AdoptError, adopt, adopt_from, adopt_loop, ownership, lineage_property,
  valid_id,
}
use boomerangz.Ownership.Proven.{ownership-IsProven}

proven_lineage : (s : Snapshot) (value : Text) → is_ok (ownership s value) ≡ true → value ≢ []
unfolding valid_id
proven_lineage s value h e = elim (Result-cases (ownership s value)) [
  | inl (m, owned) ↦
      let valid = (ownership-IsProven s value owned).valid_lineage in
      let empty : valid_id [] ≡ true = subst (λ v. valid_id v ≡ true) e valid in cc empty
  | inr (x, failed) ↦ ground (arith, failed)
]

-- A property gives the lineage, or it is another one, or it proves nothing.
abbrev pub Agrees : Text → Snapshot → Property → Type 0
Agrees lineage s p =
    ((p.name =? lineage_property) ≡ false)
    ⊎ (is_ok (ownership s p.value) ≡ false)
    ⊎ (p.value ≡ lineage)

=?-eq : (s t : Text) → (s =? t) ≡ true → s ≡ t
=?-eq s t h = ground arith

nil_of : (s : Text) → is_nil s ≡ true → s ≡ []
nil_of [] h = refl
nil_of (c ∷ s) h = cc

adopt_from-Agrees :
    (s : Snapshot) (ps : List Property) (lineage : Text) {found : Text}
    → adopt_from s ps lineage ≡ ok found
    → ((lineage ≡ []) ⊎ (found ≡ lineage)) × All (Agrees found s) ps
unfolding adopt_from
adopt_from-Agrees s [] lineage h = (inr cc, tt)
adopt_from-Agrees s (p ∷ ps) lineage {found} h =
    elim (Bool-cases (not (p.name =? lineage_property) || not (is_ok (ownership s p.value)))) [
      | inl skipped ↦
          let agrees : Agrees found s p = ground arith in
          let (same, rest) = adopt_from-Agrees s ps lineage (ground arith) in (same, (agrees, rest))
      | inr taken ↦
          let chained : (if not (is_nil lineage) && not (lineage =? p.value)
                then err AdoptError.several_lineages
                else adopt_from s ps p.value)
              ≡ ok found =
            ground arith in
          let (same, rest) = adopt_from-Agrees s ps p.value (ground (arith, chained)) in
          let is_p : found ≡ p.value = elim same [
            | inl empty ↦ absurd (proven_lineage s p.value (ground arith) empty)
            | inr e ↦ e
          ] in
          (
            elim (Bool-cases (is_nil lineage)) [
              | inl empty ↦ inl (nil_of lineage empty)
              | inr filled ↦ inr (is_p ∙ sym (=?-eq lineage p.value (ground (arith, chained))))
            ],
            (inr (inr (sym is_p)), rest),
          )
    ]

-- What agrees with the lineage so far agrees with the one that is found.
Agrees-later :
    (s : Snapshot) (next found : Text) (ps : List Property)
    → (next ≡ []) ⊎ (found ≡ next)
    → All (Agrees next s) ps
    → All (Agrees found s) ps
Agrees-later s next found [] h k = tt
Agrees-later s next found (p ∷ ps) h (a, k) = (
  elim a [
    | inl other ↦ inl other
    | inr (inl nothing) ↦ inr (inl nothing)
    | inr (inr e) ↦ elim h [
      | inl empty ↦ elim (Bool-cases (is_ok (ownership s p.value))) [
        | inl proves ↦ absurd (proven_lineage s p.value proves (e ∙ empty))
        | inr nothing ↦ inr (inl nothing)
      ]
      | inr same ↦ inr (inr (e ∙ sym same))
    ]
  ],
  Agrees-later s next found ps h k,
)

adopt_loop-Agrees :
    (ss : List Snapshot) (lineage : Text) {found : Text}
    → adopt_loop ss lineage ≡ ok found
    → ((lineage ≡ []) ⊎ (found ≡ lineage)) × All (λ s. All (Agrees found s) s.properties) ss
unfolding adopt_loop
adopt_loop-Agrees [] lineage h = (inr cc, tt)
adopt_loop-Agrees (s ∷ ss) lineage {found} h =
    let (next, here, later) = >>=-eq-ok (adopt_from s s.properties lineage) _ h in
    let (same, agrees) = adopt_from-Agrees s s.properties lineage here in
    let (same', rest) = adopt_loop-Agrees ss next later in
    (
      elim same [
        | inl empty ↦ inl empty
        | inr e ↦ elim same' [ inl none_yet ↦ inl (sym e ∙ none_yet) | inr e' ↦ inr (e' ∙ e) ]
      ],
      (Agrees-later s next found s.properties same' agrees, rest),
    )

-- The adopted lineage is not empty, and every lineage that a property of a snapshot proves is it.
pub adopt-Agrees :
    (ss : List Snapshot) {lineage : Text}
    → adopt ss ≡ ok lineage
    → (lineage ≢ []) × All (λ s. All (Agrees lineage s) s.properties) ss
unfolding adopt
adopt-Agrees ss {lineage} h =
    let (found, looped, checked) = >>=-eq-ok (adopt_loop ss []) _ h in
    let (some_lineage, same) = refuse-passed (is_nil found) _ checked in
    let e : found ≡ lineage = cc in
    (
      λ empty. ground (arith, e, empty),
      subst (λ l. All (λ s. All (Agrees l s) s.properties) ss) e (adopt_loop-Agrees ss [] looped).1,
    )
