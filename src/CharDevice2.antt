-- ===== src/CharDevice2.antt =====
-- kernel/chardevice2.c: the device of chardevice.c with two ways to register, of which the old one
-- is compiled with OLDWAY_REGIST_CHARDEVICE.
pub mod Laws
mod Tests
use codingforfun.Prelude.{
  ℕ, zero, suc, ◌+◌, ◌-◌, ◌%◌, ◌^◌, ◌≡◌, ◌<◌, refl, Bool, true, false, List, [], ◌∷◌, ◌++◌, ltb,
  leb, ◌==◌, if◌then◌else◌, length, take, drop, Bool-cases, inl, inr, arith,
}
use codingforfun.Run.{Run, done, fault, ◌>>=◌}
use codingforfun.KernelModule.{
  Call, alloc_chrdev_region, register_chrdev, class_create, cdev_init, cdev_add, device_create,
  unregister_chrdev_region, unregister_chrdev, device_destroy, cdev_del, nothing, held_after,
  int_zero, negative,
}
use codingforfun.CharDevice.{Device, driver_buffer_size}

-- dev_init, with what register_chrdev, or alloc_chrdev_region and cdev_add return. `major` is
-- unsigned, so that `major < 0` does not hold for any value.
pub dev_init : Bool → ℕ → ℕ → Device → List Call × ℕ × Device
dev_init oldway registered added d =
    let opened = record d { currently_opened = 0 } in
    let start = alloc_chrdev_region true ∷ class_create ∷ cdev_init ∷ [] in
    let old : List Call × ℕ × Device =
      let major = (registered + int_zero) % 2 ^ 32 in
      let calls = register_chrdev (leb int_zero registered) ∷ [] in
      if ltb major 0 then (calls, major, d) else (calls, int_zero, opened) in
    let new : List Call × ℕ × Device =
      if negative registered
      then (alloc_chrdev_region false ∷ [], registered, d)
      else if negative added
      then (start ++ cdev_add false ∷ [], added, d)
      else (start ++ cdev_add true ∷ device_create ∷ [], int_zero, opened) in
    if oldway then old else new

pub dev_exit : Bool → List Call
dev_exit oldway =
    if oldway
    then unregister_chrdev ∷ []
    else unregister_chrdev_region ∷ device_destroy ∷ cdev_del ∷ []

pub dev_open : Device → Device
dev_open d =
    let opened = record d { times_opened = (d.times_opened + 1) % 2 ^ 32 } in
    record opened { currently_opened = (opened.currently_opened + 1) % 2 ^ 32 }

pub dev_close : Device → Device
dev_close d = record d { currently_opened = (d.currently_opened + (2 ^ 32 - 1)) % 2 ^ 32 }

-- The count that dev_read and dev_write go on with, as a `size_t` of 64 bits.
pub clip : ℕ → ℕ → ℕ
clip position count =
    let over = ltb driver_buffer_size ((position + count) % 2 ^ 64) in
    if over then driver_buffer_size - position else count

-- The bytes from `device_buffer + *position` on that copy_to_user goes through.
pub bytes_from : List ℕ → ℕ → ℕ → Run (List ℕ)
bytes_from buffer position count =
    let bytes = take count (drop position buffer) in
    if ltb (length buffer) (position + count) then fault else done bytes

pub dev_read : (copy_to_user : List ℕ → ℕ) → ℕ → ℕ → Device → Run (ℕ × List ℕ × ℕ)
unfolding clip bytes_from
dev_read copy_to_user count position d =
    let clipped = clip position count in
    let reading : Run (ℕ × List ℕ × ℕ) = bytes_from d.device_buffer position clipped >>= λ bytes.
    let not_copied = copy_to_user bytes in
    let copied = clipped - not_copied in
    if not_copied == clipped
    then done (0, [], position)
    else done (copied, take copied bytes, position + copied) in
    if leb driver_buffer_size position then done (0, [], position) else reading

-- The bytes from `user_buffer + *position` on that copy_from_user goes through.
pub user_bytes : (ℕ → ℕ) → ℕ → ℕ → List ℕ
user_bytes user position zero = []
user_bytes user position (suc n) = user position ∷ user_bytes user (position + 1) n

pub dev_write : (copy_from_user : List ℕ → ℕ) → (ℕ → ℕ) → ℕ → ℕ → Device → Run (ℕ × ℕ × Device)
unfolding clip user_bytes
dev_write copy_from_user user count position d =
    let clipped = clip position count in
    let bytes = user_bytes user position clipped in
    let not_copied = copy_from_user bytes in
    let copied = clipped - not_copied in
    let written = record d { device_buffer = take copied bytes ++ drop copied d.device_buffer } in
    let writing : Run (ℕ × ℕ × Device) =
      if leb clipped (length d.device_buffer)
      then (if not_copied == clipped
          then done (0, position, d)
          else done (copied, position + copied, written))
      else fault in
    if ltb driver_buffer_size position then done (0, position, d) else writing

-- The old way, dev_init returns 0 also where register_chrdev returns an error and nothing is held;
-- where it returns none, dev_exit gives back all that is held.
dev_init_old :
    (registered added : ℕ) (d : Device)
    → (let (calls, result, d') = dev_init true registered added d in
        (result ≡ int_zero)
        × (held_after nothing calls ≡ (
            if negative registered then nothing else record nothing { region = true; cdev = true }))
        × (held_after nothing (calls ++ dev_exit true) ≡ nothing))
unfolding dev_init dev_exit
dev_init_old registered added d =
    let unsigned : ltb ((registered + int_zero) % 2 ^ 32) 0 ≡ false = ground arith in
    elim (Bool-cases (negative registered)) [
      | inl failed ↦
          let no : leb int_zero registered ≡ false = ground arith in
          rw (unsigned, no, failed) (refl, refl, refl)
      | inr fine ↦
          let ok : leb int_zero registered ≡ true = ground arith in
          rw (unsigned, ok, fine) (refl, refl, refl)
    ]
