-- ===== src/PollDevice/Setup.antt =====
-- my_init and my_exit of kernel/blockingIO_polling/module.c. What the kernel returns is an argument.
use codingforfun.Prelude.{
  ℕ, ◌≡◌, refl, true, false, List, [], ◌∷◌, ◌++◌, inl, inr, Bool-cases, if◌then◌else◌,
}
use codingforfun.KernelModule.{
  Call, alloc_chrdev_region, class_create, cdev_alloc, cdev_init, cdev_add, device_create,
  unregister_chrdev_region, device_destroy, class_destroy, cdev_del, nothing, held_after, negative,
}
use codingforfun.PollDevice.{Device}

-- my_init, with what alloc_chrdev_region and cdev_add return: the calls, the result and the device.
pub my_init : ℕ → ℕ → Device → List Call × ℕ × Device
my_init allocated added d =
    let start = alloc_chrdev_region true ∷ cdev_alloc ∷ cdev_init ∷ [] in
    if negative allocated
    then (alloc_chrdev_region false ∷ [], allocated, d)
    else if negative added
    then (start ++ cdev_add false ∷ unregister_chrdev_region ∷ [], added, d)
    else (
      start ++ cdev_add true ∷ class_create ∷ device_create ∷ [],
      added,
      record d { use_count = 0 },
    )

pub my_exit : List Call
my_exit = cdev_del ∷ unregister_chrdev_region ∷ device_destroy ∷ class_destroy ∷ []

-- Where my_init returns an error nothing is held after it, and otherwise nothing is held after
-- my_exit.
pub my_init-my_exit :
    (allocated added : ℕ) (d : Device)
    → (let (calls, result, d') = my_init allocated added d in
        if negative result
        then held_after nothing calls ≡ nothing
        else held_after nothing (calls ++ my_exit) ≡ nothing)
unfolding my_init my_exit
my_init-my_exit allocated added d = elim (Bool-cases (negative allocated)) [
  | inl failed ↦ rw (failed, failed) refl
  | inr passed ↦ elim (Bool-cases (negative added)) [
    | inl failed ↦ rw (passed, failed, failed) refl
    | inr fine ↦ rw (passed, fine, fine) refl
  ]
]
