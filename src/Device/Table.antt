-- ===== src/Device/Table.antt =====
-- The table that `device_init` sets up and `device_install` fills.
use mathlib.Core.Path.{subst}
use polaris_os.Prelude.{
  ltb, if◌then◌else◌, Bool-cases, length, get_elem?, set, length-set, get_elem?-set_self,
  get_elem?-set_ne, get_elem?-eq-get_or, ◌>>=◌, ℕ, zero, suc, ◌+◌, ◌≤◌, ◌<◌, ◌≡◌, refl, sym, ap,
  ◌∙◌, ◌≢◌, inl, inr, true, false, Option, none, some, List, arith, ℕ_discrete,
}
use polaris_os.Device.{
  device_nr, is_null, Device, Driver, null_device, device_init_loop, device_init, find_null,
  get_null_device, installed, device_install, device_get,
}

init_loop-length : (W : Type 0) (left i : ℕ) → length (device_init_loop {W = W} left i) ≡ left
unfolding device_init_loop
init_loop-length W zero i = refl
init_loop-length W (suc left) i = ap suc (init_loop-length W left (i + 1))

module _ {W : Type 0} where
  -- There are 64 devices, each with its own number; device 0 stays the null device.
  pub record IsTable (devices : List (Device W)) : Type 0 where
    pub size : length devices ≡ device_nr
    pub numbered : (i : ℕ) (d : Device W) → get_elem? devices i ≡ some d → d.dev ≡ i

  init_loop-numbered :
      (left i k : ℕ) (d : Device W) → get_elem? (device_init_loop left i) k ≡ some d → d.dev ≡ i + k
  unfolding device_init_loop null_device
  init_loop-numbered zero i k d e = cc
  init_loop-numbered (suc left) i zero d e =
      let same : null_device i ≡ d = cc in omega (arith, ap Device.dev (sym same))
  init_loop-numbered (suc left) i (suc k) d e = omega (arith, init_loop-numbered left (i + 1) k d e)

  pub device_init-IsTable : IsTable (device_init {W = W})
  unfolding device_init
  device_init-IsTable = record {
    size = init_loop-length W 64 0;
    numbered = λ i d e. omega (arith, init_loop-numbered 64 0 i d e);
  }

  -- Not the null device.
  pub IsUsed : List (Device W) → ℕ → Type 0
  IsUsed devices i = (d : Device W) → get_elem? devices i ≡ some d → is_null d.type ≡ false

  -- The first entry from `i` on, among `left`, that is the null device.
  data FirstNull (devices : List (Device W)) (i left : ℕ) : Option ℕ → Type 0 where
    all_used : ((k : ℕ) → i ≤ k → k < i + left → IsUsed devices k) → FirstNull devices i left none
    first_null :
        (k : ℕ) (d : Device W)
        → i ≤ k
        → k < i + left
        → get_elem? devices k ≡ some d
        → is_null d.type ≡ true
        → ((j : ℕ) → i ≤ j → j < k → IsUsed devices j)
        → FirstNull devices i left (some k)

  with_used :
      (devices : List (Device W)) (i left : ℕ) {o : Option ℕ}
      → IsUsed devices i
      → FirstNull devices (i + 1) left o
      → FirstNull devices i (suc left) o
  with_used devices i left u (all_used all) = all_used (λ k low high. elim (ℕ_discrete i k) [
    | yes same ↦ subst (IsUsed devices) same u
    | no ne ↦ all k (omega (arith, low, ne)) (omega (arith, high))
  ])
  with_used devices i left u (first_null k d low high e n before) =
      first_null k d (omega (arith, low)) (omega (arith, high)) e n (λ j l h.
        elim (ℕ_discrete i j) [
          | yes same ↦ subst (IsUsed devices) same u
          | no ne ↦ before j (omega (arith, l, ne)) h
        ])

  find_null-FirstNull :
      (devices : List (Device W)) (left i : ℕ)
      → i + left ≤ length devices
      → FirstNull devices i left (find_null left devices i)
  unfolding find_null IsUsed
  find_null-FirstNull devices zero i fits =
      all_used (λ k low high. absurd (omega (arith, low, high)))
  find_null-FirstNull devices (suc left) i fits =
      by_entry (get_elem? devices i) refl
        (find_null-FirstNull devices left (i + 1) (omega (arith, fits)))
    where
      by_entry :
          (o : Option (Device W)) {r : Option ℕ}
          → get_elem? devices i ≡ o
          → FirstNull devices (i + 1) left r
          → FirstNull devices i (suc left) (do d ← o; if is_null d.type then some i else r)
      by_entry none e rest =
          let there = get_elem?-eq-get_or devices i (null_device 0) (omega (arith, fits)) in cc
      by_entry (some d) e rest = elim (Bool-cases (is_null d.type)) [
        | inl null ↦ rw null (
            first_null i d (omega arith) (omega arith) e null
              (λ j l h. absurd (omega (arith, l, h))))
        | inr used ↦ rw used (
            with_used devices i left
              (λ d' e'. (let same : d ≡ d' = cc in ap (λ x. is_null x.type) (sym same) ∙ used))
              rest)
      ]

  -- How `device_install` ends: the first free entry from 1 on holds the driver and `device_get` finds
  -- it there, the table is well formed and no other entry has changed; or a panic, as none is free.
  pub data Install (devices : List (Device W)) (driver : Driver W)
      : Option (ℕ × List (Device W)) → Type 0 where
    no_slot : ((k : ℕ) → 1 ≤ k → k < 64 → IsUsed devices k) → Install devices driver none
    slot :
        (k : ℕ) (d : Device W) (devices' : List (Device W))
        → 1 ≤ k
        → k < 64
        → is_null d.type ≡ true
        → ((j : ℕ) → 1 ≤ j → j < k → IsUsed devices j)
        → device_get k devices' ≡ some (installed driver d)
        → ((j : ℕ) → k ≢ j → get_elem? devices' j ≡ get_elem? devices j)
        → IsTable devices'
        → Install devices driver (some (k, devices'))

  set-IsTable :
      (devices : List (Device W)) (k : ℕ) (d : Device W)
      → IsTable devices
      → k < 64
      → d.dev ≡ k
      → IsTable (set devices k d)
  set-IsTable devices k d t h e = record {
    size = length-set devices k d ∙ t.size;
    numbered = λ i d' g. elim (ℕ_discrete k i) [
      | yes same ↦
          let here = get_elem?-set_self devices k d (omega (arith, h, t.size)) in
          let at_i = subst (λ j. get_elem? (set devices k d) j ≡ some d) same here in
          let d_same : d ≡ d' = cc in ap Device.dev (sym d_same) ∙ e ∙ same
      | no ne ↦ t.numbered i d' (sym (get_elem?-set_ne devices d ne) ∙ g)
    ];
  }

  got :
      (k : ℕ) (devices : List (Device W)) (d : Device W)
      → ltb k 64 ≡ true
      → get_elem? devices k ≡ some d
      → is_null d.type ≡ false
      → device_get k devices ≡ some d
  unfolding device_get
  got k devices d inside e real = rw (inside, e, real) refl

  -- `device_install` of a driver that is not the null device takes the first free entry from 1 on, where
  -- `device_get` then finds it, and changes no other; it panics exactly if all of them are used.
  pub device_install-Install :
      (devices : List (Device W)) (driver : Driver W)
      → IsTable devices
      → is_null driver.type ≡ false
      → Install devices driver (device_install driver devices)
  unfolding device_install get_null_device
  device_install-Install devices driver t real =
      by_slot (find_null-FirstNull devices 63 1 (omega (arith, t.size)))
    where
      by_slot :
          {o : Option ℕ}
          → FirstNull devices 1 63 o
          → Install devices driver
              (do i ← o; d ← get_elem? devices i; some (d.dev, set devices i (installed driver d)))
      by_slot (all_used all) = no_slot all
      by_slot (first_null k d low high e n before) =
          let inside : ltb k 64 ≡ true = ground (arith, high) in
          let new = installed driver d in
          let here : get_elem? (set devices k new) k ≡ some new =
            get_elem?-set_self devices k new (omega (arith, high, t.size)) in
          let found : device_get k (set devices k new) ≡ some new =
            got k (set devices k new) new inside here real in
          let own = t.numbered k d e in
          let holds = set-IsTable devices k new t high own in
          let rest = λ (j : ℕ) (ne : k ≢ j). get_elem?-set_ne devices new ne in
          rw e (
            subst (λ m. Install devices driver (some (m, set devices k new))) (sym own)
              (slot k d (set devices k new) low high n before found rest holds))
