-- ===== src/Handles/Clear.antt =====
-- `Handles::clear`, which empties the table when the process ends.
use wibo.Base.{ℕ, ◌+◌, ◌⊎◌, ◌≡◌, ◌≢◌, List, []}
use wibo.Handles.Table.{Table, empty_table}
use wibo.Handles.Slots.{Inv, parked, taken, present}
use wibo.Handles.World.{World}

-- No slot is taken, and none is parked where none was; or some index is parked or taken more or less often than
-- its slot exists.
abbrev pub Cleared : List ℕ → Table → Type 0
Cleared q t =
    ((i : ℕ) → taken t i ≡ 0)
    × (((q ≡ []) × (t ≡ empty_table) × Inv t)
        ⊎ ((q ≢ []) × ((i : ℕ) × (parked t i + taken t i ≢ present t i))))
