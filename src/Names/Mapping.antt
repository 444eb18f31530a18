-- ===== src/Names/Mapping.antt =====
-- Where a stream is received: `MapReceiveDataset` of internal/zfs/stream.go.
use boomerangz.Base.{
  ◌≡◌, subst, inl, inr, true, ◌∷◌, ◌++◌, arith, Option-cases, Text, text_key, ℕ_key,
}
use boomerangz.Base.Result.{>>=-eq-ok, ok}
use boomerangz.Strings.{slash, cut, after_last}
use boomerangz.Strings.Laws.{cut-some, after_last_cases}
use boomerangz.Names.{
  ReceiveDiscard, receive_exact, receive_drop_first, receive_drop_all, other, inside, map_by,
  validate_dataset, map_receive_dataset,
}
use boomerangz.Names.Paths.{inside_self, inside-below}
use boomerangz.Names.Validity.{IsDataset, validate_dataset_iff, join-IsDataset, IsTail}

-- What the mapping appends to the root, if anything.
data Mapped (source root : Text) : Text → Type 0 where
  whole : Mapped source root root
  below : (t : Text) → IsTail source t → Mapped source root (root ++ slash ∷ t)

map_by-Mapped :
    (d : ReceiveDiscard) (source root : Text) {target : Text}
    → map_by d source root ≡ ok target
    → Mapped source root target
unfolding map_by
map_by-Mapped receive_exact source root h = subst (Mapped source root) (cc) whole
map_by-Mapped receive_drop_first source root h = elim (Option-cases (cut slash source)) [
  | inl missing ↦ subst (Mapped source root) (ground arith) whole
  | inr ((before, t), found) ↦
      subst (Mapped source root) (ground arith)
        (below t (inr (before, (cut-some slash source found).0)))
]
map_by-Mapped receive_drop_all source root h =
    subst (Mapped source root) (cc)
      (below (after_last slash source) (after_last_cases slash source))
map_by-Mapped (other mode) source root h = cc

map_receive_dataset_cases :
    (source root : Text) (d : ReceiveDiscard) {target : Text}
    → map_receive_dataset source root d ≡ ok target
    → IsDataset source × IsDataset root × Mapped source root target
unfolding map_receive_dataset
map_receive_dataset_cases source root d h =
    let (_, s, more) = >>=-eq-ok (validate_dataset source) _ h in
    let (_, r, mapped) = >>=-eq-ok (validate_dataset root) _ more in
    (
      (validate_dataset_iff source).0 s,
      (validate_dataset_iff root).0 r,
      map_by-Mapped d source root mapped,
    )

Mapped-IsDataset :
    {source root target : Text}
    → IsDataset source
    → IsDataset root
    → Mapped source root target
    → IsDataset target
Mapped-IsDataset s r whole = r
Mapped-IsDataset {source} {root} s r (below t tail) = join-IsDataset root source t r s tail

Mapped-inside : {source root target : Text} → Mapped source root target → inside target root ≡ true
Mapped-inside {root} whole = inside_self root
Mapped-inside {root} (below t tail) = inside-below root t

-- A mapped destination is a valid dataset name at or below the configured root.
pub map_receive_dataset_confined :
    (source root : Text) (d : ReceiveDiscard) {target : Text}
    → map_receive_dataset source root d ≡ ok target
    → (validate_dataset target ≡ ok tt) × (inside target root ≡ true)
map_receive_dataset_confined source root d {target} h =
    let (s, r, m) = map_receive_dataset_cases source root d h in
    ((validate_dataset_iff target).1 (Mapped-IsDataset s r m), Mapped-inside m)
