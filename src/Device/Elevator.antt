-- ===== src/Device/Elevator.antt =====
-- src/kernel/device.c: the requests of one block device, as the tasks that make them run. A request
-- is its list node; `none` is a failed assertion. The two halves of `device_request`, before and behind
-- `do_request`, run alone, as system calls have interrupts off; others can run while `do_request` waits.
pub mod Neighbour
pub mod Queue
pub mod Serve
pub mod Next
pub mod Order
use polaris_os.LinkedList.Without.{without}
use polaris_os.LinkedList.{Ptr, Store, Ends, list_remove, list_empty, list_insert_sort}
use polaris_os.Prelude.{
  ◌==◌, if◌then◌else◌, length, ◌>>=◌, ◌>>◌, assert, ℕ, suc, Bool, true, false, not, ◌&&◌, ◌||◌,
  Option, none, some, List, ◌∷◌,
}

-- `key` is the field `idx` and `task` the field `task` of each request, with `none` for NULL;
-- `serving` lists the requests whose tasks are behind `task_block`, `live` those that are
-- allocated, which bound the walk of the list. `direct` is false for DIRECT_UP.
pub record Disk : Type 0 where
  pub ends : Ends
  pub links : Store
  pub key : Ptr → ℕ
  pub task : Ptr → Option ℕ
  pub serving : List Ptr
  pub live : List Ptr
  pub direct : Bool

abbrev pub assign : {A : Type 0} → (Ptr → A) → Ptr → A → Ptr → A
assign f p a q = if q == p then a else f q

-- The first half: the request is put in the list. Its task goes on only where the list was empty.
unfoldable pub enqueue : (req idx t : ℕ) → Disk → Option Disk
enqueue req idx t d =
    let key = assign d.key req idx in
    let empty = list_empty d.ends d.links in
    do
      links ← list_insert_sort (suc (length d.live)) key d.ends req d.links
      some (record d {
        key = key;
        links = links;
        task = assign d.task req (if empty then none else some t);
        serving = if empty then req ∷ d.serving else d.serving;
        live = req ∷ d.live;
      })

-- The turn at either end of the list.
unfoldable pub turn : Ptr → Disk → Bool
turn req d =
    if not d.direct && (d.links.next req == d.ends.tail)
    then true
    else if d.direct && (d.links.prev req == d.ends.head)
    then false
    else d.direct

unfoldable pub request_nextreq : Ptr → Disk → Option Ptr × Disk
request_nextreq req d =
    let direct = turn req d in
    let next = if direct then d.links.prev req else d.links.next req in
    (
      (if (next == d.ends.head) || (next == d.ends.tail) then none else some next),
      record d { direct = direct },
    )

abbrev pub is_some : {A : Type 0} → Option A → Bool
is_some none = false
is_some (some a) = true

-- `device_request` behind the call of `request_nextreq`.
unfoldable pub finish : Ptr → Option Ptr × Disk → Option Disk
finish req (nextreq, d) = do
  links ← list_remove req d.links
  let left = record d { links = links; serving = without req d.serving; live = without req d.live }
  elim nextreq [
    | none ↦ some left
    | some next ↦ do
      assert (is_some (left.task next))
      some (record left { serving = next ∷ left.serving })
  ]

-- The second half, behind `do_request`.
unfoldable pub dequeue : Ptr → Disk → Option Disk
dequeue req d = finish req (request_nextreq req d)
