-- ===== src/Tests/Histories.antt =====
-- Witnesses for sequences of calls of the repository.
use boilerplate_go_be.Base.{pos, refl, [], ◌∷◌, List}
use boilerplate_go_be.World.Ctx.{Ctx}
use boilerplate_go_be.Items.Store.{named}
use boilerplate_go_be.Items.Atomic.{creating, updating, deleting}
use boilerplate_go_be.Items.Runs.{
  CommitLaw, Call, listing, getting, changing, Steps, after_calls, calls_of,
}
use boilerplate_go_be.Items.Histories.{after_calls-refines}
use boilerplate_go_be.Items.Distinct.{DistinctIds, after_calls-DistinctIds}
use boilerplate_go_be.Tests.Memory.{
  Memory, world, context, memory_store, memory_store-DistinctIds, repository,
}

-- Every commit of this store succeeds.
memory_commits : CommitLaw memory_store
memory_commits = record { all_or_nothing = λ tx s e h. absurd (cc h) }

abbrev a_day : List (Ctx Memory × Call)
a_day =
    (context, changing (creating (named (pos 0) "ink")))
    ∷ (context, listing)
    ∷ (context, changing (updating (named (pos 2) "mug")))
    ∷ (context, getting (pos 9))
    ∷ (context, changing (deleting (pos 1)))
    ∷ []

after_calls-refines_example :
    Steps
      (memory_store.table world.outside)
      (calls_of Memory repository a_day)
      (memory_store.table (after_calls Memory repository a_day world).outside)
after_calls-refines_example =
    after_calls-refines memory_store memory_commits repository a_day world refl

after_calls-DistinctIds_example :
    DistinctIds (memory_store.table (after_calls Memory repository a_day world).outside)
after_calls-DistinctIds_example =
    after_calls-DistinctIds memory_store memory_commits repository a_day world refl
      memory_store-DistinctIds
