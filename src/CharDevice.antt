-- ===== src/CharDevice.antt =====
-- kernel/chardevice.c: a character device over 20 bytes. What the kernel returns, and the memory of
-- the user, are arguments. A `loff_t` position is taken to be not negative.

pub mod Laws
use codingforfun.Prelude.{
  ℕ, zero, suc, ◌+◌, ◌-◌, ◌*◌, ◌%◌, ◌^◌, Bool, true, false, List, [], ◌∷◌, ◌++◌, ltb, leb, ◌==◌,
  if◌then◌else◌, length, take, drop,
}
use codingforfun.Run.{Run, done, fault, ◌>>=◌}
use codingforfun.KernelModule.{
  Call, alloc_chrdev_region, class_create, cdev_init, cdev_add, device_create,
  unregister_chrdev_region, device_destroy, cdev_del, int_zero, negative,
}

-- `DRIVER_BUFFER_SIZE`
abbrev pub driver_buffer_size : ℕ
driver_buffer_size = 20

-- The static variables; the two counters are `int`s, as bit patterns.
pub record Device : Type 0 where
  pub device_buffer : List ℕ
  pub currently_opened : ℕ
  pub times_opened : ℕ

-- dev_init, with what alloc_chrdev_region and cdev_add return: the calls, the result, the device.
unfoldable pub dev_init : ℕ → ℕ → Device → List Call × ℕ × Device
dev_init allocated added d =
    let start = alloc_chrdev_region true ∷ class_create ∷ cdev_init ∷ [] in
    if negative allocated
    then (alloc_chrdev_region false ∷ [], allocated, d)
    else if negative added
    then (start ++ cdev_add false ∷ [], added, d)
    else (start ++ cdev_add true ∷ device_create ∷ [], int_zero, record d { currently_opened = 0 })

unfoldable pub dev_exit : List Call
dev_exit = unregister_chrdev_region ∷ device_destroy ∷ cdev_del ∷ []

-- dev_open and dev_close return 0.
unfoldable pub dev_open : Device → Device
dev_open d = record d {
  times_opened = (d.times_opened + 1) % 2 ^ 32;
  currently_opened = (d.currently_opened + 1) % 2 ^ 32;
}

unfoldable pub dev_close : Device → Device
dev_close d = record d { currently_opened = (d.currently_opened + (2 ^ 32 - 1)) % 2 ^ 32 }

-- The count that dev_read and dev_write go on with. The sum is a `size_t` of 64 bits.
unfoldable pub clip : ℕ → ℕ → ℕ
clip position count =
    if ltb driver_buffer_size ((position + count) % 2 ^ 64)
    then driver_buffer_size - position
    else count

-- `count` bytes of `device_buffer` from an index on, which the kernel goes through.
unfoldable pub bytes_from : List ℕ → ℕ → ℕ → Run (List ℕ)
bytes_from buffer position count =
    if leb (position + count) (length buffer)
    then done (take count (drop position buffer))
    else fault

-- dev_read, where `copy_to_user` tells how many bytes the kernel does not copy: the result, the
-- bytes that get to the user, and `*position`.
unfoldable pub dev_read : (copy_to_user : List ℕ → ℕ) → ℕ → ℕ → Device → Run (ℕ × List ℕ × ℕ)
unfolding clip bytes_from
dev_read copy_to_user count position d =
    let count' = clip position count in
    let reading : Run (ℕ × List ℕ × ℕ) = do
      bytes ← bytes_from d.device_buffer position count'
      let not_copied = copy_to_user bytes
      let copied = count' - not_copied
      let some_bytes : Run (ℕ × List ℕ × ℕ) = done (copied, take copied bytes, position + copied)
      if not_copied == count' then done (0, [], position) else some_bytes
    in if leb driver_buffer_size position then done (0, [], position) else reading

-- The bytes that the user has from an address on.
unfoldable pub user_bytes : (ℕ → ℕ) → ℕ → ℕ → List ℕ
user_bytes user address zero = []
user_bytes user address (suc n) = user address ∷ user_bytes user (address + 1) n

-- dev_write, where `user` is the memory from `user_buffer` on, and `copy_from_user` tells how many
-- bytes the kernel does not copy: the result, `*position`, and the device.
unfoldable pub dev_write :
    (copy_from_user : List ℕ → ℕ) → (ℕ → ℕ) → ℕ → ℕ → Device → Run (ℕ × ℕ × Device)
unfolding clip user_bytes
dev_write copy_from_user user count position d =
    let count' = clip position count in
    let bytes = user_bytes user position count' in
    let not_copied = copy_from_user bytes in
    let copied = count' - not_copied in
    let b = take copied bytes ++ drop copied d.device_buffer in
    let writing : Run (ℕ × ℕ × Device) =
      if not_copied == count'
      then done (0, position, d)
      else done (copied, position + copied, record d { device_buffer = b }) in
    let fitting : Run (ℕ × ℕ × Device) =
      if leb count' (length d.device_buffer) then writing else fault in
    if ltb driver_buffer_size position then done (0, position, d) else fitting
