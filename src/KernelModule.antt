-- ===== src/KernelModule.antt =====
-- What a kernel module gets from the kernel when it is loaded, and gives back: the calls in order,
-- and what is held after them. A call that can fail carries whether it succeeded.
use codingforfun.Prelude.{ℕ, Bool, true, false, List, [], ◌∷◌, ltb}

pub data Call : Type 0 where
  alloc_chrdev_region : Bool → Call
  register_chrdev : Bool → Call
  class_create : Call
  cdev_alloc : Call
  cdev_init : Call
  cdev_add : Bool → Call
  device_create : Call
  unregister_chrdev_region : Call
  unregister_chrdev : Call
  device_destroy : Call
  class_destroy : Call
  cdev_del : Call

-- The device numbers, the class in sysfs, the character device and its node.
pub record Held : Type 0 where
  pub region : Bool
  pub class : Bool
  pub cdev : Bool
  pub node : Bool

abbrev pub nothing : Held
nothing = record { region = false; class = false; cdev = false; node = false }

-- A call that fails changes nothing, as the kernel documents it.
abbrev pub held_after : Held → List Call → Held
held_after h [] = h
held_after h (alloc_chrdev_region true ∷ calls) = held_after (record h { region = true }) calls
held_after h (register_chrdev true ∷ calls) =
    held_after (record h { region = true; cdev = true }) calls
held_after h (class_create ∷ calls) = held_after (record h { class = true }) calls
held_after h (cdev_add true ∷ calls) = held_after (record h { cdev = true }) calls
held_after h (device_create ∷ calls) = held_after (record h { node = true }) calls
held_after h (unregister_chrdev_region ∷ calls) = held_after (record h { region = false }) calls
held_after h (unregister_chrdev ∷ calls) =
    held_after (record h { region = false; cdev = false }) calls
held_after h (device_destroy ∷ calls) = held_after (record h { node = false }) calls
held_after h (class_destroy ∷ calls) = held_after (record h { class = false }) calls
held_after h (cdev_del ∷ calls) = held_after (record h { cdev = false }) calls
held_after h (alloc_chrdev_region false ∷ calls) = held_after h calls
held_after h (register_chrdev false ∷ calls) = held_after h calls
held_after h (cdev_add false ∷ calls) = held_after h calls
held_after h (cdev_alloc ∷ calls) = held_after h calls
held_after h (cdev_init ∷ calls) = held_after h calls

-- 0 as an `int` v, which is the number v + 2^31.
abbrev pub int_zero : ℕ
int_zero = 2147483648

-- `v < 0`
abbrev pub negative : ℕ → Bool
negative v = ltb v int_zero
