-- ===== src/Store/Cycles/Laws.antt =====
-- A cycle is found under its id with the statistics that FinalizeCycle saved.
use backuper.Prelude.{ℕ, suc, ◌≡◌, ◌≤◌, refl, List, [], ◌∷◌, ◌++◌, some, arith, All}
use backuper.Prelude.Int.{ℤ}
use backuper.Store.Cycles.{Cycle, max_cycle_id, create_cycle, finalize_cycle, get_cycle}

le-max_cycle_id : (rows : List Cycle) (m : ℕ) → max_cycle_id rows ≤ m → All (λ r. r.id ≤ m) rows
le-max_cycle_id [] m h = tt
le-max_cycle_id (r ∷ rows) m h = (ground arith, le-max_cycle_id rows m (ground arith))

get_cycle-last :
    (m : ℕ) (t : ℤ) (c new : Cycle) (rows : List Cycle)
    → All (λ r. r.id ≤ m) rows
    → c.id ≡ suc m
    → new.id ≡ suc m
    → new.started_at ≡ t
    → get_cycle (suc m) (finalize_cycle c (rows ++ new ∷ []))
      ≡ some (record c { id = suc m; started_at = t })
unfolding get_cycle finalize_cycle
get_cycle-last m t c new [] h e f g = ground arith
get_cycle-last m t c new (r ∷ rows) h e f g =
    ground (arith, get_cycle-last m t c new rows h.1 e f g)

-- A cycle that is created and finalized is read back under its id with what FinalizeCycle was given,
-- and with the start that CreateCycle was given, whatever other cycles there are.
pub get_cycle-finalize_cycle :
    (t : ℤ) (c : Cycle) (rows : List Cycle)
    → let (rows', id) = create_cycle t rows in
      get_cycle id (finalize_cycle (record c { id = id }) rows')
      ≡ some (record c { id = id; started_at = t })
unfolding create_cycle
get_cycle-finalize_cycle t c rows =
    let m = max_cycle_id rows in
    get_cycle-last m t (record c { id = suc m }) _ rows (le-max_cycle_id rows m (omega arith)) refl
      refl refl
