-- ===== src/Memory.antt =====
-- The store of a C program that links nodes of one type: an address holds a node or nothing, and
-- address 0 is NULL.
use codingforfun.Prelude.{ℕ, ◌≡◌, refl, ◌≢◌, Option, none, some, ◌==◌, if◌then◌else◌, arith, false}
use codingforfun.Run.{Run, done, fault, ◌>>=◌, or_fault}

abbrev pub Ptr : Type 0
Ptr = ℕ

abbrev pub null : Ptr
null = 0

abbrev pub Heap : Type 0 → Type 0
Heap N = Ptr → Option N

module _ {N : Type 0} where
  -- The heap with `n` at `p`.
  unfoldable pub put : Heap N → Ptr → N → Heap N
  put h p n a = if a == p then some n else h a

  -- `*p`
  unfoldable pub read : Heap N → Ptr → Run N
  read h p = if p == null then fault else or_fault (h p)

  -- `*p = n`
  unfoldable pub write : Heap N → Ptr → N → Run (Heap N)
  write h p n = do old ← read h p; done (put h p n)

  -- free(p); free(NULL) does nothing, and a pointer to no node is not to be freed.
  unfoldable pub free : Heap N → Ptr → Run (Heap N)
  free h p =
      if p == null
      then done h
      else do old ← or_fault (h p); done (λ a. if a == p then none else h a)

  -- malloc returns `new` and the node at it gets its first contents. The code does not test for
  -- NULL, so that its first write would fault.
  unfoldable pub allocate : Heap N → Ptr → N → Run (Heap N)
  allocate h new n = if new == null then fault else done (put h new n)

  module _ (h : Heap N) (p : Ptr) (n : N) (live : p ≢ null) (holds : h p ≡ some n) where
    pub read-done : read h p ≡ done n
    unfolding read
    read-done = let ok : (p == null) ≡ false = ground arith in rw (ok, holds)

    pub write-done : (m : N) → write h p m ≡ done (put h p m)
    unfolding write
    write-done m = rw read-done

  pub read-null : (h : Heap N) → read h null ≡ fault
  unfolding read
  read-null h = refl

  pub free-done :
      (h : Heap N) (p : Ptr) (n : N)
      → p ≢ null
      → h p ≡ some n
      → free h p ≡ done (λ a. if a == p then none else h a)
  unfolding free
  free-done h p n live holds = let ok : (p == null) ≡ false = ground arith in rw (ok, holds) refl

  pub put_self : (h : Heap N) (p : Ptr) (n : N) → put h p n p ≡ some n
  unfolding put
  put_self h p n = ground arith

  pub put_other : (h : Heap N) (p a : Ptr) (n : N) → a ≢ p → put h p n a ≡ h a
  unfolding put
  put_other h p a n ne = ground arith

  pub allocate-done : (h : Heap N) (p : Ptr) (n : N) → p ≢ null → allocate h p n ≡ done (put h p n)
  unfolding allocate
  allocate-done h p n live = ground arith
