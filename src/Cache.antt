-- ===== src/Cache.antt =====
-- src/kernel/buffer.c: the buffers of disk blocks, their hash table and the list of the free ones. A
-- buffer is named by its place behind `buffer_start`; lists are sequences, as LinkedList has the links.
-- `none` is a failed assertion.
pub mod Coherence
pub mod Claim
pub mod Reuse
pub mod Get
pub mod Count
pub mod Fetch
pub mod Release
mod Tests
use Prim.Native.Nat.{bit_xor}
use polaris_os.LinkedList.Without.{without, split_last}
use polaris_os.Prelude.{
  ltb, ◌==◌, if◌then◌else◌, ◌>>=◌, ◌>>◌, assert, ℕ, ◌+◌, ◌-◌, ◌*◌, ◌%◌, Bool, true, false, not,
  ◌&&◌, Option, none, some, List, [], ◌∷◌,
}
use polaris_os.Bitmap.{eof}
use polaris_os.LinkedList.Linked.{has}

abbrev pub hash_count : ℕ
hash_count = 31

abbrev pub block_size : ℕ
block_size = 1024

pub record Block : Type 0 where
  pub dev : ℕ
  pub block : ℕ
  pub count : ℕ
  pub dirty : Bool
  pub valid : Bool

-- `used` is `buffer_count`, and `start` is `buffer_start`. `requests` lists the
-- blocks that were written to their devices.
pub record Cache : Type 0 where
  pub buffers : ℕ → Block
  pub used : ℕ
  pub start : ℕ
  pub buffer_data : ℕ
  pub table : ℕ → List ℕ
  pub free_list : List ℕ
  pub wait_list : List ℕ
  pub requests : List (ℕ × ℕ)

abbrev pub put : ℕ → Block → (ℕ → Block) → ℕ → Block
put i b buffers j = if i == j then b else buffers j

unfoldable pub hash : (dev block : ℕ) → ℕ
hash dev block = bit_xor dev block % hash_count

abbrev pub is_block : (dev block : ℕ) → Block → Bool
is_block dev block b = (b.dev == dev) && (b.block == block)

-- The loop of `get_from_hash_table`.
unfoldable pub chain_loop : (dev block : ℕ) → (ℕ → Block) → List ℕ → Option ℕ
chain_loop dev block buffers [] = none
chain_loop dev block buffers (i ∷ is) =
    let rest = chain_loop dev block buffers is in
    if is_block dev block (buffers i) then some i else rest

unfoldable pub get_from_hash_table : (dev block : ℕ) → Cache → Option ℕ × Cache
get_from_hash_table dev block c = elim (chain_loop dev block c.buffers (c.table (hash dev block))) [
  | none ↦ (none, c)
  | some i ↦ (some i, record c { free_list = without i c.free_list })
]

abbrev pub set_chain : ℕ → List ℕ → (ℕ → List ℕ) → ℕ → List ℕ
set_chain k is table l = if k == l then is else table l

unfoldable pub hash_locate : ℕ → Cache → Option Cache
hash_locate i c =
    let k = hash (c.buffers i).dev (c.buffers i).block in
    do
      assert (not (has i (c.table k)))
      some (record c { table = set_chain k (i ∷ c.table k) c.table })

unfoldable pub hash_remove : ℕ → Cache → Option Cache
hash_remove i c =
    let k = hash (c.buffers i).dev (c.buffers i).block in
    do
      assert (has i (c.table k))
      some (record c { table = set_chain k (without i (c.table k)) c.table })

-- The size of a `buffer_t` is a parameter; buffers are taken from below and their data from above.
unfoldable pub get_new_buffer : (size : ℕ) → Cache → Option ℕ × Cache
get_new_buffer size c =
    if ltb (c.start + c.used * size + size) c.buffer_data
    then (
      some c.used,
      record c {
        buffers =
            put c.used (record { dev = eof; block = 0; count = 0; dirty = false; valid = false })
              c.buffers;
        used = c.used + 1;
        buffer_data = c.buffer_data - block_size;
      },
    )
    else (none, c)

-- Of the list of free buffers, the one that was free for longest.
unfoldable pub from_list : List ℕ → Cache → Option (Option ℕ × Cache)
from_list [] c = some (none, c)
from_list (i ∷ is) c =
    let (front, last) = split_last i is in
    do
      c1 ← hash_remove last (record c { free_list = front })
      some (
        some last,
        record c1 { buffers = put last (record (c1.buffers last) { valid = false }) c1.buffers },
      )

unfoldable pub or_free : Option ℕ × Cache → Option (Option ℕ × Cache)
or_free (some i, c) = some (some i, c)
or_free (none, c) = from_list c.free_list c

-- A round of the loop of `get_free_buffer`; without a buffer the task has to wait.
unfoldable pub get_free_buffer : (size : ℕ) → Cache → Option (Option ℕ × Cache)
get_free_buffer size c = or_free (get_new_buffer size c)

-- What a call of `getblk` comes to: a buffer, or a wait for one, in `get_free_buffer`.
pub data Got : Type 0 where
  got : ℕ → Cache → Got
  waits : Cache → Got

-- `getblk` behind `get_free_buffer`, where there is a buffer.
unfoldable pub take_over : (dev block t : ℕ) → Option ℕ × Cache → Option Got
take_over dev block t (none, c) = some (waits (record c { wait_list = t ∷ c.wait_list }))
take_over dev block t (some i, c) = do
  assert ((c.buffers i).count == 0)
  assert (not (c.buffers i).dirty)
  c1 ← hash_locate i (record c {
    buffers = put i (record (c.buffers i) { count = 1; dev = dev; block = block }) c.buffers;
  })
  some (got i c1)

-- `getblk` from `get_free_buffer` on, which is also where a task goes on that was woken.
unfoldable pub claim : (size dev block t : ℕ) → Cache → Option Got
claim size dev block t c = get_free_buffer size c >>= take_over dev block t

-- `getblk` behind `get_from_hash_table`.
unfoldable pub add_reference : (size dev block t : ℕ) → Option ℕ × Cache → Option Got
add_reference size dev block t (none, c) = claim size dev block t c
add_reference size dev block t (some i, c) =
    let b = c.buffers i in
    some (got i (record c { buffers = put i (record b { count = b.count + 1 }) c.buffers }))

unfoldable pub getblk : (size dev block t : ℕ) → Cache → Option Got
getblk size dev block t c = add_reference size dev block t (get_from_hash_table dev block c)

-- `bwrite`, where the buffer goes to its device.
unfoldable pub write_back : ℕ → Cache → Cache
write_back i c =
    let b = c.buffers i in
    if b.dirty
    then record c {
      buffers = put i (record b { dirty = false; valid = true }) c.buffers;
      requests = (b.dev, b.block) ∷ c.requests;
    }
    else c

-- `list_pop_back` of the tasks that wait: the tasks left, the last one, and whether the links of its
-- node are set; `list_remove` has set both to NULL.
unfoldable pub pop_back : ℕ → List ℕ → List ℕ × ℕ × Bool
pop_back t ts = let (front, last) = split_last t ts in (front, last, false)

-- `task_unblock` as far as the cache goes: its `list_remove` asserts that the links are not NULL.
unfoldable pub task_unblock : (linked : Bool) → Cache → Option Cache
task_unblock linked c = do assert linked; some c

-- The end of `brelse`: a task that waits is popped and unblocked.
unfoldable pub wake_one : List ℕ → Cache → Option Cache
wake_one [] c = some c
wake_one (t ∷ ts) c =
    let (front, last, linked) = pop_back t ts in
    task_unblock linked (record c { wait_list = front })

-- `brelse` behind `bwrite`.
unfoldable pub drop_reference : ℕ → Cache → Option Cache
drop_reference i c =
    let b = c.buffers i in
    let c1 = record c { buffers = put i (record b { count = b.count - 1 }) c.buffers } in
    do
      assert (ltb 0 b.count)
      if ltb 1 b.count then some c1 else do
        assert (not (has i c.free_list))
        wake_one c.wait_list (record c1 { free_list = i ∷ c.free_list })

unfoldable pub brelse : ℕ → Cache → Option Cache
brelse i c = drop_reference i (write_back i c)

-- `buffer_init`, with the initial values of the variables.
unfoldable pub buffer_init : Cache
buffer_init = record {
  buffers = λ i. record { dev = 0; block = 0; count = 0; dirty = false; valid = false };
  used = 0;
  start = 0x800000;
  buffer_data = 0x800000 + 0x400000 - block_size;
  table = λ k. [];
  free_list = [];
  wait_list = [];
  requests = [];
}
