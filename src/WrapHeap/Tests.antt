-- ===== src/WrapHeap/Tests.antt =====
-- A heap of three buffers.
use chanjet.Common.{ℕ, ◌≡◌, refl, [], ◌∷◌, some, arith}
use chanjet.Common.Int.{pos, negsuc}
use chanjet.MinHeap.{MinHeapItem, MinHeap, swap, append_item, drop_last, less, up, down}
use chanjet.WrapHeap.{push, pick}
use chanjet.WrapHeap.Order.{IsValid, Pushed, push_correct}
use chanjet.WrapHeap.Pick.{Picked, pick_least}

abbrev item : ℕ → MinHeapItem
item n = record { sequence = pos n; buf = n; index = pos 0 }

abbrev at_place : ℕ → ℕ → MinHeapItem
at_place n i = record { sequence = pos n; buf = n; index = pos i }

abbrev pair : MinHeap
pair = at_place 4 0 ∷ at_place 9 1 ∷ []

pair-IsValid : IsValid pair
pair-IsValid = grind arith

push-pair : push pair (item 2) ≡ some (at_place 2 0 ∷ at_place 9 1 ∷ at_place 4 2 ∷ [])
unfolding push append_item swap less up
push-pair = refl

pick-pair :
    pick pair
    ≡ some (some (record { sequence = pos 4; buf = 4; index = negsuc 0 }), at_place 9 0 ∷ [])
unfolding pick drop_last swap less down
pick-pair = refl

push_correct_example : Pushed pair (item 2) (push pair (item 2))
push_correct_example = push_correct pair (item 2) pair-IsValid

pick_least_example : Picked pair (pick pair)
pick_least_example = pick_least pair pair-IsValid (omega arith)
