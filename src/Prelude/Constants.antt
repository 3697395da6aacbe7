-- ===== src/Prelude/Constants.antt =====
-- src/include/os/os.h: the constant that several parts of the kernel share.
use Prim.Native.Nat.{ℕ}

-- The mark of a task that has not been overwritten, and of the loader.
abbrev pub os_magic : ℕ
os_magic = 0x20260306
