-- ===== src/CharDevice2/Tests.antt =====
-- A buffer of 20 bytes, and each theorem about the two drivers at it.
use codingforfun.Prelude.{ℕ, ◌+◌, ◌≤◌, ◌≡◌, refl, List, [], ◌∷◌, length, take, drop, arith}
use codingforfun.Run.{done, Returns}
use codingforfun.CharDevice.{driver_buffer_size, Device, dev_read, dev_write}
use codingforfun.CharDevice.Laws.{IsValid, dev_read-take}
use codingforfun.CharDevice2

abbrev zeros : List ℕ
zeros = 0 ∷ 0 ∷ 0 ∷ 0 ∷ 0 ∷ 0 ∷ 0 ∷ 0 ∷ 0 ∷ 0 ∷ 0 ∷ 0 ∷ 0 ∷ 0 ∷ 0 ∷ 0 ∷ 0 ∷ 0 ∷ []

abbrev fresh : Device
fresh = record { device_buffer = 7 ∷ 8 ∷ zeros; currently_opened = 0; times_opened = 0 }

fresh-IsValid : IsValid fresh
fresh-IsValid = refl

abbrev copies_all : List ℕ → ℕ
copies_all bytes = 0

abbrev memory : ℕ → ℕ
memory address = address + 100

-- The second write, at position 2, overwrites the first byte.
dev_write-fresh :
    dev_write copies_all memory 3 2 fresh
    ≡ done (3, 5, record fresh { device_buffer = 102 ∷ 103 ∷ 104 ∷ drop 1 zeros })
unfolding dev_write take drop
dev_write-fresh = refl

dev_read-take_example :
    Returns
      (λ (n, out, position').
        (n ≤ 30)
        × (position' ≡ 1 + n)
        × (out ≡ take n (drop 1 fresh.device_buffer))
        × (length out ≡ n)
        × (driver_buffer_size ≤ 1 → n ≡ 0))
      (dev_read copies_all 30 1 fresh)
dev_read-take_example =
    dev_read-take copies_all 30 1 fresh (λ bytes. omega arith) fresh-IsValid (omega arith)
