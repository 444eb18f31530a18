-- ===== src/Queue/Remove.antt =====
-- `RemoveScope` and `DiscardAll` take the jobs of a scope, or all of them, off the rotation.
pub mod Loop
use boomerangz.Base.{
  is_none, ℕ, zero, suc, ◌+◌, ◌-◌, ◌*◌, ◌/◌, ◌%◌, ◌^◌, ◌≤◌, ◌<◌, ◌≡◌, refl, sym, ap, ◌∙◌, subst,
  ◌≢◌, ◌↔◌, ◌⊎◌, inl, inr, Bool, true, false, not, ◌&&◌, ◌||◌, Option, none, some, List, [], ◌∷◌,
  ◌++◌, map, append_assoc, append-nil, arith, ltb, leb, ◌==◌, if◌then◌else◌, Bool-cases,
  Option-cases, Text, Key, text_dec, text_key, ℕ_key, ◌=?◌, codes, length, is_nil, length-append,
  keep, any, every, All, All-append, contains, remove, IsNodup, contains-append, contains-remove,
  IsNodup-remove, IsNodup-snoc,
}
use boomerangz.Base.Dict.{
  Dict, lookup, insert, delete, get_or, keys, lookup-insert, lookup-delete, IsNodup-keys-insert,
  IsNodup-keys-delete,
}
use boomerangz.Jobs.{Job}
use boomerangz.Queue.{FairQueue, jobs_of, in_scope, out_of_scope, remove_ids, remove_from}
use boomerangz.Queue.Weights.{weigh, weigh_jobs, named, each, weigh-insert, weigh-delete}
use boomerangz.Queue.Valid.{in_group, IsValid}

module _ {W : Type 0} (scope : Text) where
  weigh_jobs-parts :
      (f : Job W → ℕ) (js : List (Job W))
      → weigh_jobs f (in_scope scope js) + weigh_jobs f (out_of_scope scope js) ≡ weigh_jobs f js
  weigh_jobs-parts f [] = refl
  weigh_jobs-parts f (j ∷ js) = ground (arith, weigh_jobs-parts f js)

  pub weigh_jobs-each : (js : List (Job W)) → weigh_jobs each js ≡ length js
  weigh_jobs-each [] = refl
  weigh_jobs-each (j ∷ js) = omega (arith, weigh_jobs-each js)

  contains-remove_ids :
      (js : List (Job W)) (ids : List Text) (x : Text)
      → contains (remove_ids js ids) x
        ≡ (if ltb 0 (weigh_jobs (named x) js) then false else contains ids x)
  contains-remove_ids [] ids x = refl
  contains-remove_ids (j ∷ js) ids x =
      ground (arith, contains-remove_ids js (remove j.id ids) x, contains-remove ids j.id x)

  in_group-out_of_scope :
      (g : Text) (js : List (Job W))
      → in_group g js ≡ true
      → in_group g (out_of_scope scope js) ≡ true
  in_group-out_of_scope g [] h = refl
  in_group-out_of_scope g (j ∷ js) h = ground (arith, in_group-out_of_scope g js)

  module _ (g : Text) (js : List (Job W)) (q : FairQueue W) where
    pub weigh-remove_from :
        (f : Job W → ℕ)
        → IsNodup (keys q.groups)
        → jobs_of g q.groups ≡ js
        → weigh f (remove_from scope g js q).groups + weigh_jobs f (in_scope scope js)
          ≡ weigh f q.groups
    weigh-remove_from f n e = kept (out_of_scope scope js) refl
      where
        kept :
            (ks : List (Job W))
            → out_of_scope scope js ≡ ks
            → weigh f (remove_from scope g js q).groups + weigh_jobs f (in_scope scope js)
              ≡ weigh f q.groups
        kept [] k = ground (
          arith,
          weigh-delete f g q.groups n,
          ap (weigh_jobs f) e,
          weigh_jobs-parts f js,
          ap (weigh_jobs f) k,
        )
        kept (x ∷ ks) k = ground (
          arith,
          weigh-insert f g (out_of_scope scope js) q.groups,
          ap (weigh_jobs f) e,
          weigh_jobs-parts f js,
        )

    pub remove_from-jobs :
        (h : Text)
        → jobs_of h (remove_from scope g js q).groups
          ≡ (if g =? h then out_of_scope scope js else jobs_of h q.groups)
    remove_from-jobs h =
        ground
          (arith, lookup-insert g h (out_of_scope scope js) q.groups, lookup-delete g h q.groups)

    pub remove_from-order :
        (h : Text)
        → contains (remove_from scope g js q).order h
          ≡ (if is_nil (out_of_scope scope js) && g =? h then false else contains q.order h)
    remove_from-order h = ground (arith, contains-remove q.order g h)

    pub remove_from-keys :
        IsNodup (keys q.groups) → IsNodup (keys (remove_from scope g js q).groups)
    remove_from-keys n = ground (
      arith,
      IsNodup-keys-insert g (out_of_scope scope js) q.groups n,
      IsNodup-keys-delete g q.groups n,
    )

    -- Taking the scope's jobs out of one group keeps the queue valid.
    pub remove_from-IsValid :
        IsValid q → jobs_of g q.groups ≡ js → IsValid (remove_from scope g js q)
    remove_from-IsValid v e = record {
      order_nodup = ground (arith, v.order_nodup, IsNodup-remove q.order g v.order_nodup);
      keys_nodup = remove_from-keys v.keys_nodup;
      listed = λ h. ground (arith, v.listed h, remove_from-order h, remove_from-jobs h, e);
      counted = omega (
        arith,
        v.counted,
        weigh-remove_from each v.keys_nodup e,
        weigh_jobs-each (in_scope scope js),
      );
      bounded = omega (arith, v.bounded);
      once = λ x. omega (arith, weigh-remove_from (named x) v.keys_nodup e, v.once x);
      exact = λ x. ground (
        arith,
        weigh-remove_from (named x) v.keys_nodup e,
        v.once x,
        v.exact x,
        contains-remove_ids (in_scope scope js) q.ids x,
      );
      grouped = λ h.
          ground
            (arith, v.grouped h, v.grouped g, e, remove_from-jobs h, in_group-out_of_scope g js);
    }
