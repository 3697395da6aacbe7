-- ===== src/Fifo/Tests.antt =====
-- Runs of the ring, and the theorems at a concrete ring.
use polaris_os.Prelude.{◌≡◌, refl, some, [], ◌∷◌, arith}
use polaris_os.Fifo.{Fifo, fifo_next, make_room, fifo_put}
use polaris_os.Fifo.Queue.{count, contents}
use polaris_os.Fifo.Refine.{Holds, put, get, run, serve, Agrees, run-serve}

-- Three slots, so two bytes at most: 8, then 9, round the end of the buffer.
abbrev wrapped : Fifo
wrapped = record { buf = 9 ∷ 7 ∷ 8 ∷ []; size = 3; head = 2; tail = 1 }

wrapped-Holds : Holds 3 (8 ∷ 9 ∷ []) wrapped
unfolding contents count
wrapped-Holds = record { valid = omega arith; slots = refl; bytes = refl }

put_full : fifo_put wrapped 5 ≡ some (record { buf = 9 ∷ 5 ∷ 8 ∷ []; size = 3; head = 0; tail = 2 })
unfolding fifo_put make_room fifo_next
put_full = refl

run-serve_example :
    Agrees 3
      (run wrapped (put 1 ∷ get ∷ get ∷ get ∷ []))
      (serve 3 (8 ∷ 9 ∷ []) (put 1 ∷ get ∷ get ∷ get ∷ []))
run-serve_example = run-serve 3 (8 ∷ 9 ∷ []) (put 1 ∷ get ∷ get ∷ get ∷ []) wrapped wrapped-Holds
