-- ===== src/Device/Tests.antt =====
-- A table with one device, and a disk with three requests.
use polaris_os.LinkedList.{
  set_next, set_prev, list_insert_before, list_empty, anchor_loop, list_insert_sort,
}
use polaris_os.Device.Table.{device_init-IsTable, Install, device_install-Install}
use polaris_os.Device.Elevator.{Disk, enqueue}
use polaris_os.Device.Elevator.Queue.{at_rest, Ordered, Sound, IsNew}
use polaris_os.Device.Elevator.Order.{
  asks, fresh, after, elevator_never_stalls, serve_all, sweep, serve_all-sweep,
}
use polaris_os.Prelude.{
  ◌==◌, if◌then◌else◌, ◌>>=◌, ℕ, ◌+◌, ◌≡◌, refl, false, none, some, [], ◌∷◌, arith,
}
use polaris_os.Device.{
  dev_char, Driver, null_device, device_init_loop, device_init, find_null, get_null_device,
  device_install, device_get, device_write,
}

abbrev console : Driver ℕ
console = record {
  type = dev_char;
  subtype = 1;
  ptr = 0;
  parent = 0;
  ioctl = none;
  read = none;
  write = some (λ ptr buf count idx flags w. some (count, w + count));
}

device_install-Install_example : Install device_init console (device_install console device_init)
device_install-Install_example = device_install-Install device_init console device_init-IsTable refl

-- The console is device 1, and takes what is written.
write_console :
    (do (dev, devices) ← device_install console device_init; device_write dev 0 5 0 0 devices 10)
    ≡ some (5, 15)
unfolding device_install get_null_device find_null device_init device_init_loop null_device
    device_write device_get
write_console = refl

abbrev empty_disk : Disk
empty_disk = record {
  ends = record { head = 1; tail = 2 };
  links = record { next = λ p. if p == 1 then 2 else 0; prev = λ p. if p == 2 then 1 else 0 };
  key = λ p. 0;
  task = λ p. none;
  serving = [];
  live = [];
  direct = false;
}

empty_disk-Sound : Sound empty_disk
empty_disk-Sound = record {
  nodes = [];
  ordered = record {
    is_list = record { linked = (refl, refl, tt); distinct = (refl, (refl, tt)); not_null = refl };
    sorted = tt;
    waits = λ p e a. cc;
    same = λ p. refl;
    counted = refl;
    alone = tt;
  };
  served = at_rest;
}

-- Requests 10, 11 and 12 for the sectors 10, 11 and 12, of which 11 is served.
abbrev three : Disk
three = record {
  ends = record { head = 1; tail = 2 };
  links = record {
    next = λ p.
        if p == 1
        then 10
        else if p == 10
        then 11
        else if p == 11
        then 12
        else if p == 12
        then 2
        else 0;
    prev = λ p.
        if p == 10
        then 1
        else if p == 11
        then 10
        else if p == 12
        then 11
        else if p == 2
        then 12
        else 0;
  };
  key = λ p. p;
  task = λ p. if p == 11 then none else some p;
  serving = 11 ∷ [];
  live = 12 ∷ 10 ∷ 11 ∷ [];
  direct = false;
}

three-Ordered : Ordered three (10 ∷ 11 ∷ 12 ∷ [])
three-Ordered = record {
  is_list = record {
    linked = (refl, refl, (refl, refl, (refl, refl, (refl, refl, tt))));
    distinct = (refl, (refl, (refl, (refl, (refl, tt)))));
    not_null = refl;
  };
  sorted = ((refl, (refl, tt)), ((refl, tt), (tt, tt)));
  waits = λ p e a. ground (arith, e, a);
  same = λ p. ground arith;
  counted = refl;
  alone = (refl, (refl, (refl, tt)));
}

-- 11 is served, then 12, and 10 on the way back.
serve_all-sweep_example : serve_all 4 three ≡ some (11 ∷ sweep false (10 ∷ []) (12 ∷ []))
serve_all-sweep_example =
    serve_all-sweep 4 three 11 (10 ∷ []) (12 ∷ []) three-Ordered refl (omega arith)

asked : (d : Disk) × (enqueue 10 50 7 empty_disk ≡ some d)
unfolding enqueue list_empty list_insert_sort anchor_loop list_insert_before set_next set_prev
asked = (_, refl)

ten-IsNew : IsNew empty_disk 10
ten-IsNew = record {
  real = refl;
  fresh = refl;
  not_head = refl;
  not_tail = refl;
  no_next = refl;
  no_prev = refl;
}

elevator_never_stalls_example : Sound asked.0
elevator_never_stalls_example =
    elevator_never_stalls empty_disk asked.0 empty_disk-Sound
      (after fresh (asks 10 50 7 ten-IsNew asked.1))
