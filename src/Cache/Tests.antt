-- ===== src/Cache/Tests.antt =====
-- A cache with one buffer, which is dirty and held, and runs on it.
use polaris_os.Cache.Coherence.{Coherent}
use polaris_os.Cache.Release.{Ended, brelse-Ended}
use polaris_os.Prelude.{
  ◌==◌, if◌then◌else◌, Bool-cases, ℕ, ◌≡◌, refl, inl, inr, true, false, Option, none, some, [], ◌∷◌,
  arith,
}
use polaris_os.Cache.{
  Block, Cache, hash, chain_loop, get_from_hash_table, hash_locate, hash_remove, get_new_buffer,
  from_list, or_free, get_free_buffer, Got, got, waits, take_over, claim, add_reference, getblk,
  write_back, pop_back, task_unblock, wake_one, drop_reference, brelse, buffer_init,
}

abbrev held : Block
held = record { dev = 1; block = 5; count = 1; dirty = true; valid = true }

abbrev one_buffer : Cache
one_buffer = record {
  buffers = λ i. held;
  used = 1;
  start = 0x800000;
  buffer_data = 0x800080;
  table = λ k. if 4 == k then 0 ∷ [] else [];
  free_list = [];
  wait_list = 7 ∷ [];
  requests = [];
}

one_buffer-Coherent : Coherent one_buffer
unfolding hash
one_buffer-Coherent = record {
  member = λ k i. elim (Bool-cases (4 == k)) [
    | inl here ↦ rw here (ground arith)
    | inr other ↦ rw other (ground arith)
  ];
  free = λ i. ground arith;
  once = tt;
  clean = λ i l z. absurd (omega (arith, z));
  single = λ i j li lj d b. omega (arith, li, lj);
}

brelse-Ended_example : Ended 0 ((1, 5) ∷ []) one_buffer (brelse 0 one_buffer)
brelse-Ended_example = brelse-Ended 0 one_buffer one_buffer-Coherent (omega arith) (omega arith)

-- Buffer 0 has one reference, and task 7 waits.
brelse_fails : brelse 0 one_buffer ≡ none
unfolding brelse drop_reference write_back wake_one pop_back task_unblock
brelse_fails = refl

-- The buffer of a result.
abbrev buffer_of : Option Got → Option ℕ
buffer_of none = none
buffer_of (some (waits c)) = none
buffer_of (some (got i c)) = some i

-- Buffer 0 is of block 5 and buffer 1 of block 9, which nobody holds.
abbrev two_buffers : Cache
two_buffers = record one_buffer {
  buffers = λ i.
      if i == 0
      then held
      else record { dev = 1; block = 9; count = 0; dirty = false; valid = true };
  used = 2;
  table = λ k. if 4 == k then 0 ∷ [] else if 8 == k then 1 ∷ [] else [];
  free_list = 1 ∷ [];
}

-- A task that has waited in `get_free_buffer` goes on there, without a look at the table: where another
-- task has got block 5 meanwhile, it makes the next free buffer a second one of that block.
two_of_a_block : buffer_of (claim 64 1 5 3 two_buffers) ≡ some 1
unfolding claim get_free_buffer get_new_buffer or_free from_list take_over hash_locate hash_remove
    hash
two_of_a_block = refl

-- `getblk` from its start finds the buffer.
one_of_a_block : buffer_of (getblk 64 1 5 3 two_buffers) ≡ some 0
unfolding getblk get_from_hash_table chain_loop add_reference hash
one_of_a_block = refl

buffer_init-Coherent : Coherent buffer_init
unfolding buffer_init
buffer_init-Coherent = record {
  member = λ k i. ground arith;
  free = λ i. ground arith;
  once = tt;
  clean = λ i l z. refl;
  single = λ i j li lj d b. absurd (omega (arith, li));
}
