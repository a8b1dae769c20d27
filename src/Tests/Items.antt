-- ===== src/Tests/Items.antt =====
-- Witnesses for the repository.
use boilerplate_go_be.Base.{pos, refl, ◌≡◌, none, [], ◌∷◌, ◌++◌}
use boilerplate_go_be.Runtime.{foreign}
use boilerplate_go_be.Dto.{Item}
use boilerplate_go_be.World.{log_f}
use boilerplate_go_be.World.Ctx.{get_tx_ctx, set_tx_ctx}
use boilerplate_go_be.Database.{with_transaction, run_tx, exec_context, get_db}
use boilerplate_go_be.Items.Store.{find, rename, remove, named}
use boilerplate_go_be.Items.Repo.{
  create, create_in_tx, change_in_tx, update, delete, list, scan_rows,
}
use boilerplate_go_be.Items.Refinement.{create-refines, update-refines, delete-refines}
use boilerplate_go_be.Items.Atomic.{creating, run_change, Unchanged, changes_atomic}
use boilerplate_go_be.Items.Reads.{list-refines}
use boilerplate_go_be.Tests.Memory.{
  Memory, world, world_taken, context, memory_store, repository, two_items,
}

abbrev ink : Item
ink = named (pos 0) "ink"

create-refines_example :
    (find (pos 3) (memory_store.table world.outside) ≡ none)
    × ("ink" ≡ ink.name)
    × (memory_store.table (create Memory repository context ink world).1.outside
        ≡ memory_store.table world.outside ++ named (pos 3) "ink" ∷ [])
unfolding create create_in_tx with_transaction run_tx exec_context get_tx_ctx set_tx_ctx find
create-refines_example =
    create-refines Memory memory_store repository context world refl ink (named (pos 3) "ink") refl

update-refines_example :
    memory_store.table (update Memory repository context (named (pos 2) "mug") world).1.outside
    ≡ rename "mug" (pos 2) (memory_store.table world.outside)
unfolding update change_in_tx with_transaction run_tx exec_context get_tx_ctx set_tx_ctx
update-refines_example =
    update-refines Memory memory_store repository context world refl (named (pos 2) "mug") refl

delete-refines_example :
    memory_store.table (delete Memory repository context (pos 1) world).1.outside
    ≡ remove (pos 1) (memory_store.table world.outside)
unfolding delete change_in_tx with_transaction run_tx exec_context get_tx_ctx set_tx_ctx
delete-refines_example =
    delete-refines Memory memory_store repository context world refl (pos 1) refl

-- The id that the insert would take is in use.
changes_atomic_example :
    Unchanged Memory memory_store repository context world_taken refl (creating ink) (foreign 2)
unfolding run_change create create_in_tx with_transaction run_tx exec_context get_tx_ctx set_tx_ctx
    find log_f
changes_atomic_example =
    changes_atomic Memory memory_store repository context world_taken refl (creating ink)
      (foreign 2) refl

list-refines_example :
    (two_items ≡ memory_store.table world.outside)
    × (memory_store.table (list Memory repository context world).1.outside
        ≡ memory_store.table world.outside)
unfolding list scan_rows get_db
list-refines_example = list-refines Memory memory_store repository context world refl two_items refl
