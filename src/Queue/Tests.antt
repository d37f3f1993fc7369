-- ===== src/Queue/Tests.antt =====
-- The queue on disk with numbers for items.
use cipher_post.Prelude.{ℕ, ◌≡◌, refl, Option, none, some, List, [], ◌∷◌, ◌++◌, arith}
use cipher_post.Prelude.Bytes.{Bytes}
use cipher_post.Prelude.Classes.{nat_eq, string_eq}
use cipher_post.Queue.{DiskQueue, file_size, ack, append, ship, read_batch, load_all}
use cipher_post.Queue.Delivery.{Waiting, Fits, Op, push, send, run, run-Waiting}

abbrev line_of : ℕ → Bytes
line_of n = n ∷ 10 ∷ []

abbrev number_in : Bytes → Option ℕ
number_in [] = none
number_in (n ∷ bs) = some n

abbrev empty_queue : DiskQueue
empty_queue = record { lines = []; offset = 0; dropped = 0 }

abbrev morning : List (Op line_of number_in (λ a. refl) 100)
morning = push 5 ∷ push 6 ∷ send 1 ∷ push 7 ∷ send 9 ∷ []

empty_queue-Waiting : Waiting line_of number_in (λ a. refl) 100 empty_queue []
empty_queue-Waiting = record { inside = omega arith; rest = refl }

morning-Fits : Fits line_of number_in (λ a. refl) 100 morning empty_queue
unfolding append file_size ship read_batch ack load_all
morning-Fits = (omega arith, (omega arith, (omega arith, tt)))

run-Waiting_example :
    (rest : List ℕ) × ((run line_of number_in (λ a. refl) 100 morning empty_queue).0 ++ rest
      ≡ 5 ∷ 6 ∷ 7 ∷ [])
    × Waiting line_of number_in
        (λ a. refl)
        100
        (run line_of number_in (λ a. refl) 100 morning empty_queue).1
        rest
run-Waiting_example =
    run-Waiting line_of number_in (λ a. refl) 100 morning empty_queue [] empty_queue-Waiting
      morning-Fits

abbrev full_queue : DiskQueue
full_queue = record { lines = line_of 5 ∷ line_of 6 ∷ []; offset = 0; dropped = 0 }
