-- ===== src/Device.antt =====
-- src/kernel/device.c: the table of devices. The handlers of a device act on a state `W` that this file
-- knows nothing of. An `int` is its bit pattern; names are left out.
pub mod Table
pub mod Elevator
mod Tests
use polaris_os.Prelude.{
  ltb, ◌==◌, if◌then◌else◌, get_elem?, set, ◌>>=◌, ◌>>◌, assert, ℕ, zero, suc, ◌+◌, ◌-◌, ◌%◌, ◌^◌,
  Bool, true, false, not, Option, none, some, List, [], ◌∷◌,
}
use polaris_os.Bitmap.{eof}

abbrev pub device_nr : ℕ
device_nr = 64

pub data DeviceType : Type 0 where
  dev_null : DeviceType
  dev_char : DeviceType
  dev_block : DeviceType

abbrev pub is_null : DeviceType → Bool
is_null dev_null = true
is_null dev_char = false
is_null dev_block = false

abbrev pub cmd_sector_start : ℕ
cmd_sector_start = 1

-- Two requests have code in `do_request`.
abbrev pub req_read : ℕ
req_read = 0

abbrev pub req_write : ℕ
req_write = 1

-- A handler gets the device's pointer and its arguments; one that is NULL is `none`.
pub record Device (W : Type 0) : Type 0 where
  pub type : DeviceType
  pub subtype : ℕ
  pub dev : ℕ
  pub parent : ℕ
  pub ptr : ℕ
  pub direct : Bool
  pub ioctl : Option (ℕ → (cmd args flags : ℕ) → W → Option (ℕ × W))
  pub read : Option (ℕ → (buf count idx flags : ℕ) → W → Option (ℕ × W))
  pub write : Option (ℕ → (buf count idx flags : ℕ) → W → Option (ℕ × W))

-- What `device_install` is called with.
pub record Driver (W : Type 0) : Type 0 where
  pub type : DeviceType
  pub subtype : ℕ
  pub ptr : ℕ
  pub parent : ℕ
  pub ioctl : Option (ℕ → (cmd args flags : ℕ) → W → Option (ℕ × W))
  pub read : Option (ℕ → (buf count idx flags : ℕ) → W → Option (ℕ × W))
  pub write : Option (ℕ → (buf count idx flags : ℕ) → W → Option (ℕ × W))

pub record Request : Type 0 where
  pub dev : ℕ
  pub type : ℕ
  pub idx : ℕ
  pub count : ℕ
  pub flags : ℕ
  pub buf : ℕ

module _ {W : Type 0} where
  unfoldable pub null_device : ℕ → Device W
  null_device i = record {
    type = dev_null;
    subtype = 0;
    dev = i;
    parent = 0;
    ptr = 0;
    direct = false;
    ioctl = none;
    read = none;
    write = none;
  }

  -- The loop of `device_init`, from entry `i` on.
  unfoldable pub device_init_loop : (left i : ℕ) → List (Device W)
  device_init_loop zero i = []
  device_init_loop (suc left) i = null_device i ∷ device_init_loop left (i + 1)

  unfoldable pub device_init : List (Device W)
  device_init = device_init_loop device_nr 0

  -- The loop of `get_null_device`.
  unfoldable pub find_null : (left : ℕ) → List (Device W) → (i : ℕ) → Option ℕ
  find_null zero devices i = none
  find_null (suc left) devices i = do
    d ← get_elem? devices i
    let rest = find_null left devices (i + 1)
    if is_null d.type then some i else rest

  unfoldable pub get_null_device : List (Device W) → Option ℕ
  get_null_device devices = find_null (device_nr - 1) devices 1

  abbrev pub installed : Driver W → Device W → Device W
  installed driver d = record d {
    ptr = driver.ptr;
    parent = driver.parent;
    type = driver.type;
    subtype = driver.subtype;
    ioctl = driver.ioctl;
    read = driver.read;
    write = driver.write;
  }

  unfoldable pub device_install : Driver W → List (Device W) → Option (ℕ × List (Device W))
  device_install driver devices = do
    i ← get_null_device devices
    d ← get_elem? devices i
    some (d.dev, set devices i (installed driver d))

  -- The loop of `device_find`: `nr` devices of the subtype have been passed.
  unfoldable pub find_loop : List (Device W) → (subtype idx nr : ℕ) → Option (Device W)
  find_loop [] subtype idx nr = none
  find_loop (d ∷ devices) subtype idx nr =
      if d.subtype == subtype
      then (if nr == idx then some d else find_loop devices subtype idx ((nr + 1) % 2 ^ 32))
      else find_loop devices subtype idx nr

  unfoldable pub device_find : (subtype idx : ℕ) → List (Device W) → Option (Device W)
  device_find subtype idx devices = find_loop devices subtype idx 0

  unfoldable pub device_get : ℕ → List (Device W) → Option (Device W)
  device_get dev devices = do
    assert (ltb dev device_nr)
    d ← get_elem? devices dev
    assert (not (is_null d.type))
    some d

  unfoldable pub device_ioctl : (dev cmd args flags : ℕ) → List (Device W) → W → Option (ℕ × W)
  device_ioctl dev cmd args flags devices w = do
    d ← device_get dev devices
    elim d.ioctl [ none ↦ some (eof, w) | some ioctl ↦ ioctl d.ptr cmd args flags w ]

  unfoldable pub device_read : (dev buf count idx flags : ℕ) → List (Device W) → W → Option (ℕ × W)
  device_read dev buf count idx flags devices w = do
    d ← device_get dev devices
    elim d.read [ none ↦ some (eof, w) | some read ↦ read d.ptr buf count idx flags w ]

  unfoldable pub device_write : (dev buf count idx flags : ℕ) → List (Device W) → W → Option (ℕ × W)
  device_write dev buf count idx flags devices w = do
    d ← device_get dev devices
    elim d.write [ none ↦ some (eof, w) | some write ↦ write d.ptr buf count idx flags w ]

  -- What the handler returns is dropped.
  unfoldable pub do_request : Request → List (Device W) → W → Option W
  do_request req devices w =
      if req.type == req_read
      then (do (_, w') ← device_read req.dev req.buf req.count req.idx req.flags devices w; some w')
      else if req.type == req_write
      then (do
        (_, w') ← device_write req.dev req.buf req.count req.idx req.flags devices w
        some w')
      else none

  -- `device_request` up to the request, with the sector counted on the parent. The assertion assigns
  -- the type of the device, and holds whatever it was.
  unfoldable pub make_request :
      (dev buf count idx flags type : ℕ)
      → List (Device W)
      → W
      → Option (Request × List (Device W) × W)
  make_request dev buf count idx flags type devices w = do
    d ← device_get dev devices
    let devices' = set devices dev (record d { type = dev_block })
    (start, w') ← device_ioctl d.dev cmd_sector_start 0 0 devices' w
    target ←
        (if d.parent == 0
          then some (record d { type = dev_block })
          else device_get d.parent devices')
    some (
      record {
        dev = target.dev;
        type = type;
        idx = (idx + start) % 2 ^ 32;
        count = count % 256;
        flags = flags;
        buf = buf;
      },
      devices',
      w',
    )
