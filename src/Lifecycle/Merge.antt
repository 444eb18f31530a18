-- ===== src/Lifecycle/Merge.antt =====
-- `MergeStates` of internal/zfs/state.go: several inspections in one state.
use boomerangz.Base.{
  ℕ, Bool, true, false, ◌&&◌, List, [], ◌∷◌, ◌++◌, ◌==◌, if◌then◌else◌, Text, text_key, ℕ_key, ◌=?◌,
  any,
}
use boomerangz.Base.Dict.{Dict, insert}
use boomerangz.Ownership.{Property, Source, local, received, other_source}
use boomerangz.Lifecycle.{ObjectType, filesystem, volume, snapshot, bookmark, Object, State}

abbrev pub kind_number : ObjectType → ℕ
kind_number filesystem = 0
kind_number volume = 1
kind_number snapshot = 2
kind_number bookmark = 3

abbrev pub same_object : Object → Object → Bool
same_object a b =
    a.name =? b.name
    && kind_number a.kind == kind_number b.kind
    && a.guid == b.guid
    && a.creation == b.creation
    && a.create_txg == b.create_txg

abbrev pub same_source : Source → Source → Bool
same_source local local = true
same_source local received = false
same_source local (other_source s) = false
same_source received local = false
same_source received received = true
same_source received (other_source s) = false
same_source (other_source s) local = false
same_source (other_source s) received = false
same_source (other_source s) (other_source t) = s =? t

abbrev pub same_property : Property → Property → Bool
same_property a b =
    a.dataset =? b.dataset
    && a.name =? b.name
    && a.value =? b.value
    && same_source a.source b.source

-- `if !slices.Contains(merged, x) { merged = append(merged, x) }` for each x.
abbrev pub add_new : {A : Type 0} → (A → A → Bool) → List A → List A → List A
add_new same merged [] = merged
add_new same merged (x ∷ xs) =
    add_new same (if any (λ y. same y x) merged then merged else merged ++ x ∷ []) xs

-- `for name, value := range more { merged[name] = value }`.
abbrev pub add_all : {V : Type 0} → Dict Text V → Dict Text V → Dict Text V
add_all merged [] = merged
add_all merged ((name, value) ∷ more) = add_all (insert name value merged) more

unfoldable pub merge_two : State → State → State
merge_two merged state = record {
  objects = add_new same_object merged.objects state.objects;
  properties = add_new same_property merged.properties state.properties;
  received = add_all merged.received state.received;
  resume_tokens = add_all merged.resume_tokens state.resume_tokens;
  clones = add_all merged.clones state.clones;
  holds = add_all merged.holds state.holds;
}

abbrev pub empty_state : State
empty_state = record {
  objects = [];
  properties = [];
  received = [];
  resume_tokens = [];
  clones = [];
  holds = [];
}

abbrev merge_loop : State → List State → State
merge_loop merged [] = merged
merge_loop merged (s ∷ states) = merge_loop (merge_two merged s) states

unfoldable pub merge_states : List State → State
unfolding merge_two
merge_states states = merge_loop empty_state states
