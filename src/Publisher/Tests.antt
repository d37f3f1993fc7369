-- ===== src/Publisher/Tests.antt =====
-- A publisher with room for two entries.
use cipher_post.Prelude.{ℕ, ◌≡◌, refl, true, false, some, List, [], ◌∷◌, arith}
use cipher_post.Prelude.Classes.{nat_eq, string_eq}
use cipher_post.Publisher.{ResilientPublisher, publish, buffer_entry, attempts, flush, flush_loop}
use cipher_post.Publisher.Order.{Op, offers, flushes, run, Delivers, run-Delivers}

abbrev narrow : ResilientPublisher ℕ
narrow = record { max_buffer = 2; buf = []; dropped = 0 }

-- Three entries that are not taken, and a flush whose second attempt succeeds once.
abbrev outage : List (Op ℕ)
outage =
    offers false 1
    ∷ offers false 2
    ∷ offers false 3
    ∷ flushes 2 (false ∷ true ∷ false ∷ false ∷ [])
    ∷ offers true 4
    ∷ []

run-outage : run outage narrow ≡ some (2 ∷ [], record { max_buffer = 2; buf = 3 ∷ []; dropped = 1 })
unfolding publish buffer_entry attempts flush flush_loop
run-outage = refl

run-Delivers_example : Delivers outage narrow
run-Delivers_example = run-Delivers outage narrow (omega arith)
