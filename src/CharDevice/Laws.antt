-- ===== src/CharDevice/Laws.antt =====
-- What the operations of chardevice.c do to the buffer, the position and what the kernel holds.
use codingforfun.Prelude.{
  ℕ, zero, suc, ◌+◌, ◌-◌, ◌%◌, ◌^◌, ◌≤◌, ◌<◌, ◌≡◌, refl, ap, ◌∙◌, true, false, List, [], ◌∷◌, ◌++◌,
  ltb, leb, ◌==◌, if◌then◌else◌, length, length-append, length-take, take, drop, length-drop, arith,
  Bool-cases, inl, inr,
}
use codingforfun.Run.{done, fault, ◌>>=◌, Returns, returns, Returns-if}
use codingforfun.KernelModule.{nothing, held_after, int_zero, negative}
use codingforfun.CharDevice.{
  driver_buffer_size, Device, dev_init, dev_exit, dev_open, dev_close, clip, bytes_from, dev_read,
  user_bytes, dev_write,
}

-- The buffer has its size.
abbrev pub IsValid : Device → Type 0
IsValid d = length d.device_buffer ≡ driver_buffer_size

-- The kernel leaves at most all bytes uncopied.
abbrev pub LeavesAtMost : (List ℕ → ℕ) → Type 0
LeavesAtMost copy = (bytes : List ℕ) → copy bytes ≤ length bytes

take-take : (m n : ℕ) (xs : List ℕ) → m ≤ n → take m (take n xs) ≡ take m xs
unfolding take
take-take zero n xs h = refl
take-take (suc m) zero xs h = absurd (omega arith)
take-take (suc m) (suc n) [] h = refl
take-take (suc m) (suc n) (x ∷ xs) h = ap (λ l. x ∷ l) (take-take m n xs (omega arith))

clip-le :
    (position count : ℕ)
    → position ≤ driver_buffer_size
    → position + count < 2 ^ 64
    → (clip position count ≤ count) × (position + clip position count ≤ driver_buffer_size)
unfolding clip
clip-le position count h fits = ground arith

-- On a buffer of 20 bytes, where position and count together are below 2^64 and the kernel leaves at
-- most all bytes uncopied: dev_read returns how many bytes it gives, at most `count`, which are the
-- bytes of the buffer from the position on, and moves the position behind them; at the end of the
-- buffer it gives none.
pub dev_read-take :
    (copy_to_user : List ℕ → ℕ) (count position : ℕ) (d : Device)
    → LeavesAtMost copy_to_user
    → IsValid d
    → position + count < 2 ^ 64
    → Returns
        (λ (n, out, position').
          (n ≤ count)
          × (position' ≡ position + n)
          × (out ≡ take n (drop position d.device_buffer))
          × (length out ≡ n)
          × (driver_buffer_size ≤ position → n ≡ 0))
        (dev_read copy_to_user count position d)
unfolding dev_read bytes_from take drop
dev_read-take copy count position d law v small =
    Returns-if (leb driver_buffer_size position)
      (λ end. returns (omega arith, omega arith, refl, refl, λ _. refl))
      λ inside.
        let room = clip-le position count (ground arith) small in
        let n = clip position count in
        let rest = drop position d.device_buffer in
        let fits : leb (position + n) (length d.device_buffer) ≡ true = ground (arith, v) in
        let longer = length-drop position d.device_buffer in
        let got = length-take n rest (omega arith) in
        let left = copy (take n rest) in
        let at_most = law (take n rest) in
        rw fits (
          Returns-if (left == n) (λ none. returns (omega arith, omega arith, refl, refl, λ _. refl))
            λ some_bytes. returns (
              omega arith,
              refl,
              take-take (n - left) n rest (omega arith),
              length-take (n - left) (take n rest) (omega arith),
              λ end. absurd (ground arith),
            ))

-- The sum of position and count is not protected against overflow: where it wraps around, dev_read
-- hands the kernel more bytes than the buffer has.
pub dev_read-fault :
    (copy_to_user : List ℕ → ℕ) (count position : ℕ) (d : Device)
    → IsValid d
    → position < driver_buffer_size
    → count < 2 ^ 64
    → 2 ^ 64 ≤ position + count
    → dev_read copy_to_user count position d ≡ fault
unfolding dev_read bytes_from clip
dev_read-fault copy count position d v inside small wraps =
    let start : leb driver_buffer_size position ≡ false = ground arith in
    let unclipped : ltb driver_buffer_size ((position + count) % 2 ^ 64) ≡ false = ground arith in
    let over : leb (position + count) (length d.device_buffer) ≡ false = ground (arith, v) in
    rw (start, unclipped, over) refl

length-user_bytes : (user : ℕ → ℕ) (address n : ℕ) → length (user_bytes user address n) ≡ n
unfolding user_bytes
length-user_bytes user address zero = refl
length-user_bytes user address (suc n) = ap suc (length-user_bytes user (address + 1) n)

take-user_bytes :
    (user : ℕ → ℕ) (address m n : ℕ)
    → m ≤ n
    → take m (user_bytes user address n) ≡ user_bytes user address m
unfolding take user_bytes
take-user_bytes user address zero n h = refl
take-user_bytes user address (suc m) zero h = absurd (omega arith)
take-user_bytes user address (suc m) (suc n) h =
    ap (λ l. user address ∷ l) (take-user_bytes user (address + 1) m n (omega arith))

-- Where position and count together are below 2^64, dev_write returns how many bytes it takes, and
-- moves the position by that; but the position goes
-- to the memory of the user and not to the buffer: the bytes are those of the user from the
-- position on, and overwrite the start of the buffer.
pub dev_write-user_bytes :
    (copy_from_user : List ℕ → ℕ) (user : ℕ → ℕ) (count position : ℕ) (d : Device)
    → LeavesAtMost copy_from_user
    → IsValid d
    → position + count < 2 ^ 64
    → Returns
        (λ (n, position', d').
          (n ≤ count)
          × (position' ≡ position + n)
          × (d'.device_buffer ≡ user_bytes user position n ++ drop n d.device_buffer)
          × IsValid d')
        (dev_write copy_from_user user count position d)
unfolding dev_write user_bytes drop
dev_write-user_bytes copy user count position d law v small =
    Returns-if (ltb driver_buffer_size position)
      (λ end. returns (omega arith, omega arith, refl, v))
      λ inside.
        let room = clip-le position count (ground arith) small in
        let n = clip position count in
        let bytes = user_bytes user position n in
        let fits : leb n (length d.device_buffer) ≡ true = ground (arith, v) in
        let size = length-user_bytes user position n in
        let left = copy bytes in
        let at_most = law bytes in
        rw fits (
          Returns-if (left == n) (λ none. returns (omega arith, omega arith, refl, v))
            λ some_bytes.
              let same = take-user_bytes user position (n - left) n (omega arith) in
              returns (
                omega arith,
                refl,
                rw same refl,
                rw same (
                    length-append (user_bytes user position (n - left))
                      (drop (n - left) d.device_buffer)
                    ∙ omega (
                      arith,
                      v,
                      length-user_bytes user position (n - left),
                      length-drop (n - left) d.device_buffer,
                    )),
              ))

take-append : (n : ℕ) (xs ys : List ℕ) → length xs ≡ n → take n (xs ++ ys) ≡ xs
unfolding take
take-append zero [] ys e = refl
take-append zero (x ∷ xs) ys e = absurd (omega arith)
take-append (suc n) [] ys e = absurd (omega arith)
take-append (suc n) (x ∷ xs) ys e = ap (λ l. x ∷ l) (take-append n xs ys (omega arith))

clip_zero : (count : ℕ) → count ≤ driver_buffer_size → clip 0 count ≡ count
unfolding clip
clip_zero count le = ground arith

-- What is written from position 0, with nothing left uncopied, is read back from position 0.
dev_read-dev_write :
    (user : ℕ → ℕ) (count : ℕ) (d : Device)
    → IsValid d
    → 0 < count
    → count ≤ driver_buffer_size
    → (dev_write (λ _. 0) user count 0 d >>= λ (n, position, d'). dev_read (λ _. 0) count 0 d')
      ≡ done (count, user_bytes user 0 count, count)
unfolding dev_write dev_read bytes_from drop
dev_read-dev_write user count d v pos le =
    let clipped = clip_zero count le in
    let whole : count - 0 ≡ count = omega arith in
    let from_zero : 0 + count ≡ count = omega arith in
    let fits : leb count (length d.device_buffer) ≡ true = ground (arith, v) in
    let some_bytes : (0 == count) ≡ false = ground arith in
    let bytes = user_bytes user 0 count in
    let size = length-user_bytes user 0 count in
    let all = take-user_bytes user 0 count count (omega arith) in
    let b = bytes ++ drop count d.device_buffer in
    let longer : leb count (length b) ≡ true =
      ground (arith, length-append bytes (drop count d.device_buffer), size) in
    let back = take-append count bytes (drop count d.device_buffer) size in
    rw (clipped, fits, some_bytes, whole, from_zero, all, longer, back, all) refl

-- dev_open and dev_close count the open files, modulo 2^32.
dev_close-dev_open :
    (d : Device)
    → d.currently_opened < 2 ^ 32
    → (dev_close (dev_open d)).currently_opened ≡ d.currently_opened
unfolding dev_open dev_close
dev_close-dev_open d small = omega arith

-- Where cdev_add fails, dev_init returns its error and keeps the device numbers and the class; after
-- a successful dev_init, dev_exit keeps the class.
dev_init_leaks :
    (allocated added : ℕ) (d : Device)
    → negative allocated ≡ false
    → (let (calls, result, d') = dev_init allocated added d in
        if negative added
        then (result ≡ added)
          × (held_after nothing calls ≡ record nothing { region = true; class = true })
        else (result ≡ int_zero)
          × (held_after nothing (calls ++ dev_exit) ≡ record nothing { class = true }))
unfolding dev_init dev_exit
dev_init_leaks allocated added d passed = elim (Bool-cases (negative added)) [
  | inl failed ↦ rw (passed, failed) (refl, refl)
  | inr fine ↦ rw (passed, fine) (refl, refl)
]
