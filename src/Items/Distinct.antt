-- ===== src/Items/Distinct.antt =====
-- The ids of the table under the calls of repositories/item/item.go.
use boilerplate_go_be.Base.{
  ℤ, String, true, none, List, [], ◌∷◌, ◌++◌, ◌≡◌, refl, arith, Bool, false, pos, negsuc, subst,
  sym, Bool-cases, int_eq, if◌then◌else◌, inl, inr,
}
use boilerplate_go_be.Dto.{Item}
use boilerplate_go_be.Platform.{Platform}
use boilerplate_go_be.World.{World}
use boilerplate_go_be.World.Ctx.{Ctx}
use boilerplate_go_be.Aggregators.{ItemRepository}
use boilerplate_go_be.Items.Store.{Table, find, rename, remove, SqlStore}
use boilerplate_go_be.Items.Runs.{
  Call, Step, stays, creates, renames, removes, Steps, done, next, CommitLaw, after_calls,
}
use boilerplate_go_be.Items.Histories.{after_calls-refines}

-- No two rows have one id.
unfoldable pub DistinctIds : Table → Type 0
DistinctIds [] = Unit {0}
DistinctIds (it ∷ t) = (find it.id t ≡ none) × DistinctIds t

find-rename-none :
    (id : ℤ) (name : String) (i : ℤ) (t : Table)
    → find id t ≡ none
    → find id (rename name i t) ≡ none
unfolding find rename
find-rename-none id name i [] h = refl
find-rename-none id name i (it ∷ t) h =
    ground (
      arith,
      find-rename-none id name i t,
      Bool-cases (int_eq it.id i),
      Bool-cases (int_eq it.id id),
    )

find-remove-none : (id i : ℤ) (t : Table) → find id t ≡ none → find id (remove i t) ≡ none
unfolding find remove
find-remove-none id i [] h = refl
find-remove-none id i (it ∷ t) h =
    ground
      (arith, find-remove-none id i t, Bool-cases (int_eq it.id i), Bool-cases (int_eq it.id id))

DistinctIds-rename :
    (name : String) (i : ℤ) (t : Table) → DistinctIds t → DistinctIds (rename name i t)
unfolding DistinctIds rename
DistinctIds-rename name i [] d = tt
DistinctIds-rename name i (it ∷ t) (new, d) =
    by_head (int_eq it.id i) (find-rename-none it.id name i t new) (DistinctIds-rename name i t d)
  where
    by_head :
        (b : Bool)
        → find it.id (rename name i t) ≡ none
        → DistinctIds (rename name i t)
        → DistinctIds ((if b then record it { name = name } else it) ∷ rename name i t)
    by_head true new' d' = (new', d')
    by_head false new' d' = (new', d')

DistinctIds-remove : (i : ℤ) (t : Table) → DistinctIds t → DistinctIds (remove i t)
unfolding DistinctIds remove
DistinctIds-remove i [] d = tt
DistinctIds-remove i (it ∷ t) (new, d) =
    by_head (int_eq it.id i) (find-remove-none it.id i t new) (DistinctIds-remove i t d)
  where
    by_head :
        (b : Bool)
        → find it.id (remove i t) ≡ none
        → DistinctIds (remove i t)
        → DistinctIds (if b then remove i t else it ∷ remove i t)
    by_head true new' d' = d'
    by_head false new' d' = (new', d')

find-snoc-none :
    (id : ℤ) (it : Item) (t : Table)
    → int_eq it.id id ≡ false
    → find id t ≡ none
    → find id (t ++ it ∷ []) ≡ none
unfolding find
find-snoc-none id it [] other h = ground arith
find-snoc-none id it (x ∷ t) other h =
    ground (arith, find-snoc-none id it t, Bool-cases (int_eq x.id id))

int_eq_sym : (a b : ℤ) → int_eq a b ≡ false → int_eq b a ≡ false
int_eq_sym (pos a) (pos b) h = ground arith
int_eq_sym (negsuc a) (negsuc b) h = ground arith
int_eq_sym (pos a) (negsuc b) h = refl
int_eq_sym (negsuc a) (pos b) h = refl

DistinctIds-snoc :
    (it : Item) (t : Table) → find it.id t ≡ none → DistinctIds t → DistinctIds (t ++ it ∷ [])
unfolding DistinctIds find
DistinctIds-snoc it [] new d = (refl, tt)
DistinctIds-snoc it (x ∷ t) new (apart, d) = elim (Bool-cases (int_eq x.id it.id)) [
  | inl e ↦ absurd (ground arith)
  | inr e ↦ (
    find-snoc-none x.id it t (int_eq_sym x.id it.id e) apart,
    DistinctIds-snoc it t (ground arith) d,
  )
]

Step-DistinctIds : {t u : Table} {k : Call} → Step t u k → DistinctIds t → DistinctIds u
Step-DistinctIds (stays e) d = subst DistinctIds (sym e) d
Step-DistinctIds {t} (creates it' named fresh e) d =
    subst DistinctIds (sym e) (DistinctIds-snoc it' t fresh d)
Step-DistinctIds {t} (renames e) d = subst DistinctIds (sym e) (DistinctIds-rename _ _ t d)
Step-DistinctIds {t} (removes e) d = subst DistinctIds (sym e) (DistinctIds-remove _ t d)

Steps-DistinctIds : {t u : Table} {ks : List Call} → Steps t ks u → DistinctIds t → DistinctIds u
Steps-DistinctIds done d = d
Steps-DistinctIds (next s rest) d = Steps-DistinctIds rest (Step-DistinctIds s d)

-- Over an open handle, and if a commit that fails has published all of its transaction or nothing: where
-- no two rows of the committed table have one id, the same holds after any sequence of calls of the
-- repository, whatever else the driver answers and however each call ends.
pub after_calls-DistinctIds :
    {P : Platform} (c : SqlStore P) (law : CommitLaw c) (r : ItemRepository)
    (calls : List (Ctx P × Call)) (w : World P)
    → w.db.connected ≡ true
    → DistinctIds (c.table w.outside)
    → DistinctIds (c.table (after_calls P r calls w).outside)
after_calls-DistinctIds c law r calls w open_db d =
    Steps-DistinctIds (after_calls-refines c law r calls w open_db) d
