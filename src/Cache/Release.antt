-- ===== src/Cache/Release.antt =====
-- `brelse` as a whole.
use mathlib.Core.Path.{subst}
use polaris_os.LinkedList.Linked.{has}
use polaris_os.Cache.Coherence.{Coherent}
use polaris_os.Cache.Count.{counted, counted-Coherent}
use polaris_os.Prelude.{
  ltb, ◌==◌, if◌then◌else◌, Bool-cases, ◌>>◌, assert, ℕ, ◌+◌, ◌-◌, ◌<◌, ◌≡◌, refl, sym, ap, ◌∙◌,
  ◌≢◌, ◌⊎◌, inl, inr, Bool, true, false, not, Option, none, some, List, [], ◌∷◌, arith,
}
use polaris_os.Cache.{
  Block, Cache, put, write_back, pop_back, task_unblock, wake_one, drop_reference, brelse,
}
use polaris_os.Cache.Claim.{put_same}

-- What `brelse` leaves where it returns: a reference less, the block on its device, and the tasks that
-- wait as they were.
pub record Released (i : ℕ) (requests : List (ℕ × ℕ)) (c c' : Cache) : Type 0 where
  pub coherent : Coherent c'
  pub less : (c'.buffers i).count + 1 ≡ (c.buffers i).count
  pub clean : (c'.buffers i).dirty ≡ false
  pub requested : c'.requests ≡ requests
  pub waiting : c'.wait_list ≡ c.wait_list

-- How `brelse` ends: it returns where another reference is left or no task waits; with the last
-- reference and a task that waits an assertion fails.
pub data Ended (i : ℕ) (requests : List (ℕ × ℕ)) (c : Cache) : Option Cache → Type 0 where
  released :
      {c' : Cache}
      → ((1 < (c.buffers i).count) ⊎ (c.wait_list ≡ []))
      → Released i requests c c'
      → Ended i requests c (some c')
  failed : (c.buffers i).count ≡ 1 → c.wait_list ≢ [] → Ended i requests c none

lists_only :
    (c : Cache) (ws : List ℕ) (rs : List (ℕ × ℕ))
    → Coherent c
    → Coherent (record c { wait_list = ws; requests = rs })
lists_only c ws rs h = record {
  member = h.member;
  free = h.free;
  once = h.once;
  clean = h.clean;
  single = h.single;
}

module _ (c : Cache) (h : Coherent c) (i : ℕ) (below : i < c.used)
    (held : 0 < (c.buffers i).count) where
  abbrev one_less : Block
  one_less = record (c.buffers i) { count = (c.buffers i).count - 1 }

  not_free : has i c.free_list ≡ false
  not_free = ground (arith, h.free i, held)

  still_used : 1 < (c.buffers i).count → Coherent (counted c h i one_less c.free_list refl refl)
  still_used more =
      counted-Coherent c h i one_less c.free_list refl refl
        (λ j. elim (Bool-cases (i == j)) [
          | inl here ↦ rw here (ground (arith, h.free j, here, held, more))
          | inr away ↦ rw away (h.free j)
        ])
        h.once (λ z. absurd (omega (arith, z, more)))

  now_free :
      (c.buffers i).dirty ≡ false
      → (c.buffers i).count ≡ 1
      → Coherent (counted c h i one_less (i ∷ c.free_list) refl refl)
  now_free tidy last =
      counted-Coherent c h i one_less (i ∷ c.free_list) refl refl
        (λ j. elim (Bool-cases (i == j)) [
          | inl here ↦ rw here (ground (arith, h.free j, here, below, last))
          | inr away ↦ rw away (ground (arith, away, h.free j))
        ])
        (not_free, h.once) (λ z. tidy)

  less_one : (put i one_less c.buffers i).count + 1 ≡ (c.buffers i).count
  less_one = omega (arith, ap (λ x. x.count) (put_same i one_less c.buffers), held)

  abbrev with_free : List ℕ → Cache
  with_free free = record c { buffers = put i one_less c.buffers; free_list = free }

  dropped :
      (free : List ℕ)
      → Coherent (with_free free)
      → (c.buffers i).dirty ≡ false
      → Released i c.requests c (with_free free)
  dropped free h tidy = record {
    coherent = h;
    less = less_one;
    clean = ap (λ x. x.dirty) (put_same i one_less c.buffers) ∙ tidy;
    requested = refl;
    waiting = refl;
  }

  wake_one-Ended :
      (tidy : (c.buffers i).dirty ≡ false)
      → (c.buffers i).count ≡ 1
      → (ws : List ℕ) → c.wait_list ≡ ws
      → Ended i c.requests c (wake_one ws (with_free (i ∷ c.free_list)))
  unfolding wake_one pop_back task_unblock
  wake_one-Ended tidy last [] e =
      released (inr e) (dropped (i ∷ c.free_list) (now_free tidy last) tidy)
  wake_one-Ended tidy last (t ∷ ts) e = failed last (λ n. (let x : t ∷ ts ≡ [] = sym e ∙ n in cc))

  -- `brelse` of a clean buffer.
  drop_reference-Ended : (c.buffers i).dirty ≡ false → Ended i c.requests c (drop_reference i c)
  unfolding drop_reference
  drop_reference-Ended tidy =
      let positive : ltb 0 (c.buffers i).count ≡ true = ground (arith, held) in
      subst
        (λ b. Ended i c.requests c (do
          assert b
          if ltb 1 (c.buffers i).count then some (with_free c.free_list) else do
            assert (not (has i c.free_list))
            wake_one c.wait_list (with_free (i ∷ c.free_list))))
        (sym positive)
        (elim (Bool-cases (ltb 1 (c.buffers i).count)) [
          | inl more ↦
              let more' : 1 < (c.buffers i).count = ground (arith, more) in
              rw more (released (inl more') (dropped c.free_list (still_used more') tidy))
          | inr last ↦
              rw (last, not_free)
                (wake_one-Ended tidy (ground (arith, last, held)) c.wait_list refl)
        ])

-- `brelse` of a buffer that is held, on a coherent cache: a dirty buffer is written to its device first.
-- Where it is not the last reference, or no task waits, it returns: the buffer has a reference less and
-- is clean, the same tasks wait, and the cache is coherent, so that the buffer is free if it was the
-- last reference. With the last reference and a task that waits an assertion fails.
pub brelse-Ended :
    (i : ℕ) (c : Cache)
    → Coherent c
    → i < c.used
    → 0 < (c.buffers i).count
    → Ended i
        (if (c.buffers i).dirty
          then ((c.buffers i).dev, (c.buffers i).block) ∷ c.requests
          else c.requests)
        c
        (brelse i c)
unfolding brelse write_back
brelse-Ended i c h below held = by_dirty (c.buffers i).dirty refl
  where
    written : Block
    written = record (c.buffers i) { dirty = false; valid = true }

    flushed : Cache
    flushed = record c {
      buffers = put i written c.buffers;
      requests = ((c.buffers i).dev, (c.buffers i).block) ∷ c.requests;
    }

    same_count : (flushed.buffers i).count ≡ (c.buffers i).count
    same_count = ap (λ x. x.count) (put_same i written c.buffers)

    flushed-Coherent : Coherent flushed
    flushed-Coherent =
        lists_only (counted c h i written c.free_list refl refl) c.wait_list
          (((c.buffers i).dev, (c.buffers i).block) ∷ c.requests)
          (counted-Coherent c h i written c.free_list refl refl
            (λ j. elim (Bool-cases (i == j)) [
              | inl here ↦ rw here (ground (arith, h.free j, here))
              | inr away ↦ rw away (h.free j)
            ])
            h.once (λ z. refl))

    from_flushed :
        {o : Option Cache} → Ended i flushed.requests flushed o → Ended i flushed.requests c o
    from_flushed (released why r) =
        released (subst (λ k. (1 < k) ⊎ (c.wait_list ≡ [])) same_count why) (record {
          coherent = r.coherent;
          less = r.less ∙ same_count;
          clean = r.clean;
          requested = r.requested;
          waiting = r.waiting;
        })
    from_flushed (failed last some_wait) = failed (sym same_count ∙ last) some_wait

    by_dirty :
        (b : Bool)
        → (c.buffers i).dirty ≡ b
        → Ended i
            (if b then flushed.requests else c.requests)
            c
            (drop_reference i (if b then flushed else c))
    by_dirty false e = drop_reference-Ended c h i below held e
    by_dirty true e = from_flushed (
        drop_reference-Ended flushed flushed-Coherent i below (omega (arith, same_count, held))
          (ap (λ x. x.dirty) (put_same i written c.buffers)))
