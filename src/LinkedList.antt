-- ===== src/LinkedList.antt =====
-- src/lib/list.c and src/include/os/list.h: a doubly linked list between two sentinels, over an
-- explicit store of nodes. A node is its address; `none` is a failed assertion or an access through
-- NULL. The key of a node, an `int` that stands at a fixed offset from it, is its bit pattern.
pub mod Linked
pub mod Without
pub mod Edit
pub mod Insert
pub mod Remove
pub mod Walk
pub mod PushPop
pub mod Sort
mod Tests
use polaris_os.Prelude.{
  ltb, ◌==◌, if◌then◌else◌, ◌>>=◌, ◌>>◌, assert, ℕ, zero, suc, ◌+◌, ◌%◌, ◌^◌, Bool, true, false,
  not, Option, none, some,
}

abbrev pub Ptr : Type 0
Ptr = ℕ

abbrev pub null : Ptr
null = 0

pub record Store : Type 0 where
  pub next : Ptr → Ptr
  pub prev : Ptr → Ptr

-- The addresses of the two sentinels of a `list_t`.
pub record Ends : Type 0 where
  pub head : Ptr
  pub tail : Ptr

abbrev pub update : (Ptr → Ptr) → Ptr → Ptr → Ptr → Ptr
update f p q a = if a == p then q else f a

unfoldable pub set_next : Ptr → Ptr → Store → Store
set_next p q h = record h { next = update h.next p q }

unfoldable pub set_prev : Ptr → Ptr → Store → Store
set_prev p q h = record h { prev = update h.prev p q }

-- A pointer that is about to be read or written through.
abbrev pub deref : Ptr → Option Ptr
deref p = if p == null then none else some p

unfoldable pub list_init : Ends → Store → Store
list_init l h =
    set_prev l.tail l.head
      (set_next l.head l.tail (set_next l.tail l.head (set_prev l.head null h)))

unfoldable pub list_insert_before : (anchor node : Ptr) → Store → Option Store
list_insert_before anchor node h = do
  n ← deref node
  a ← deref anchor
  let h1 = set_prev n (h.prev a) h
  let h2 = set_next n a h1
  p ← deref (h2.prev a)
  some (set_prev a n (set_next p n h2))

unfoldable pub list_insert_after : (anchor node : Ptr) → Store → Option Store
list_insert_after anchor node h = do
  n ← deref node
  a ← deref anchor
  let h1 = set_prev n a h
  let h2 = set_next n (h1.next a) h1
  q ← deref (h2.next a)
  some (set_next a n (set_prev q n h2))

unfoldable pub list_remove : Ptr → Store → Option Store
list_remove node h = do
  n ← deref node
  p ← deref (h.prev n)
  q ← deref (h.next n)
  let h1 = set_next p q h
  q' ← deref (h1.next n)
  let h2 = set_prev q' (h1.prev n) h1
  some (set_next n null (set_prev n null h2))

unfoldable pub list_empty : Ends → Store → Bool
list_empty l h = h.next l.head == l.tail

-- The loops run on fuel, and `none` is also what lack of fuel gives.
unfoldable pub search_loop : ℕ → Store → (tail node cur : Ptr) → Option Bool
search_loop zero h tail node cur = none
search_loop (suc fuel) h tail node cur =
    if cur == tail
    then some false
    else if cur == node
    then some true
    else (do c ← deref cur; search_loop fuel h tail node (h.next c))

unfoldable pub list_search : ℕ → Ends → Ptr → Store → Option Bool
list_search fuel l node h = search_loop fuel h l.tail node (h.next l.head)

unfoldable pub size_loop : ℕ → Store → (tail cur : Ptr) → ℕ → Option ℕ
size_loop zero h tail cur size = none
size_loop (suc fuel) h tail cur size =
    if cur == tail
    then some size
    else (do c ← deref cur; size_loop fuel h tail (h.next c) ((size + 1) % 2 ^ 32))

unfoldable pub list_size : ℕ → Ends → Store → Option ℕ
list_size fuel l h = size_loop fuel h l.tail (h.next l.head) 0

unfoldable pub list_push_front : ℕ → Ends → Ptr → Store → Option Store
list_push_front fuel l node h = do
  found ← list_search fuel l node h
  assert (not found)
  list_insert_after l.head node h

unfoldable pub list_push_back : ℕ → Ends → Ptr → Store → Option Store
list_push_back fuel l node h = do
  found ← list_search fuel l node h
  assert (not found)
  list_insert_before l.tail node h

unfoldable pub list_pop_front : Ends → Store → Option (Ptr × Store)
list_pop_front l h = do
  assert (not (list_empty l h))
  let node = h.next l.head
  h' ← list_remove node h
  some (node, h')

unfoldable pub list_pop_back : Ends → Store → Option (Ptr × Store)
list_pop_back l h = do
  assert (not (list_empty l h))
  let node = h.prev l.tail
  h' ← list_remove node h
  some (node, h')

-- `a > b` on two `int`s given as bit patterns.
abbrev pub gt_int : ℕ → ℕ → Bool
gt_int a b = ltb ((b + 2 ^ 31) % 2 ^ 32) ((a + 2 ^ 31) % 2 ^ 32)

-- The loop of `list_insert_sort`: the first node with a greater key, or the tail.
unfoldable pub anchor_loop : ℕ → Store → (key : Ptr → ℕ) → (tail : Ptr) → ℕ → Ptr → Option Ptr
anchor_loop zero h key tail k ptr = none
anchor_loop (suc fuel) h key tail k ptr =
    if ptr == tail
    then some tail
    else if gt_int (key ptr) k
    then some ptr
    else (do c ← deref ptr; anchor_loop fuel h key tail k (h.next c))

unfoldable pub list_insert_sort : ℕ → (key : Ptr → ℕ) → Ends → Ptr → Store → Option Store
list_insert_sort fuel key l node h = do
  anchor ← anchor_loop fuel h key l.tail (key node) (h.next l.head)
  assert (h.next node == null)
  assert (h.prev node == null)
  list_insert_before anchor node h
