-- ===== src/PollDevice.antt =====
-- kernel/blockingIO_polling/module.c: a character device over a ring of bytes, with blocking reads
-- and writes. What the kernel does while a call sleeps, and what other tasks do then, are arguments.
-- Between these points a call is one step.
pub mod Calls
pub mod Setup
mod Tests
pub mod Ring
use Prim.Native.Nat.{bit_or}
use codingforfun.Prelude.{
  ℕ, zero, suc, ◌+◌, ◌-◌, ◌%◌, ◌^◌, Bool, true, false, not, ◌&&◌, List, [], ◌∷◌, ltb, ◌==◌,
  if◌then◌else◌,
}
use codingforfun.Run.{Run, done, ◌>>=◌}
use codingforfun.Array.{load, store}

-- `N`
abbrev pub ring_size : ℕ
ring_size = 23

-- The static variables. `use_count` is an `int`, as a bit pattern.
pub record Device : Type 0 where
  pub rbuf : List ℕ
  pub use_count : ℕ
  pub ir : ℕ
  pub iw : ℕ
  pub ih : ℕ

-- is_buffer_full leaves the place before `ir` in `ih`.
pub is_buffer_full : Device → Bool × Device
is_buffer_full d =
    let before = if ltb d.ir 1 then d.ir + ring_size - 1 else d.ir - 1 in
    (d.iw == before, record d { ih = before })

pub is_buffer_empty : Device → Bool
is_buffer_empty d = d.ir == d.iw

-- device_poll, with the kernel's `POLLIN | POLLRDNORM` and `POLLOUT | POLLWRNORM`.
pub device_poll : ℕ → ℕ → Device → ℕ × Device
unfolding is_buffer_full is_buffer_empty
device_poll pollin pollout d =
    let mask = if not (is_buffer_empty d) then bit_or 0 pollin else 0 in
    let (full, d') = is_buffer_full d in (if not full then bit_or mask pollout else mask, d')

-- `if (i == N) i = 0;` behind `i++`
pub next_place : ℕ → ℕ
next_place i = if i + 1 == ring_size then 0 else i + 1

-- The loop of device_read, with `left` for `len - i`. The list is what it gives to put_user, whose
-- answer it does not look at.
pub copy_out : ℕ → ℕ → Device → Run (ℕ × List ℕ × Device)
unfolding next_place
copy_out zero i d = done (i, [], d)
copy_out (suc left) i d =
    let more : Run (ℕ × List ℕ × Device) = do
      c ← load d.rbuf d.ir
      (i', out, d') ← copy_out left (i + 1) (record d { ir = next_place d.ir })
      done (i', c ∷ out, d')
    in if d.ir == d.iw then done (i, [], d) else more

-- The loop of device_write, on the bytes that get_user returns.
pub copy_in : List ℕ → ℕ → Device → Run (ℕ × Device)
unfolding next_place
copy_in [] i d = done (i, d)
copy_in (c ∷ bytes) i d =
    let more : Run (ℕ × Device) = do
      b ← store d.rbuf d.iw c
      copy_in bytes (i + 1) (record d { rbuf = b; iw = next_place d.iw })
    in if d.iw == d.ih then done (i, d) else more

-- What read and write return.
pub data Reply : Type 0 where
  eagain : Reply
  erestartsys : Reply
  count : ℕ → Reply

-- device_read. `wait` stands for wait_event_interruptible, with what signal_pending says after it
-- and the device as it is then, and `down` for down_interruptible.
pub device_read :
    (wait down : Device → Bool × Device) → Bool → ℕ → Device → Run (Reply × List ℕ × Device)
unfolding copy_out is_buffer_empty
device_read wait down nonblock len d =
    let (signal, d1) = wait d in
    let (interrupted, d2) = down d1 in
    let reading : Run (Reply × List ℕ × Device) = do
      (i, out, d3) ← copy_out len 0 d2
      done (count i, out, d3)
    in if is_buffer_empty d && nonblock
      then done (eagain, [], d)
      else if signal
      then done (erestartsys, [], d1)
      else if interrupted
      then done (erestartsys, [], d2)
      else reading

-- device_write. Each look of wait_event_interruptible at the condition is a call of is_buffer_full;
-- the last one is made on the device that `wait` leaves.
pub device_write :
    (wait down : Device → Bool × Device) → Bool → List ℕ → Device → Run (Reply × Device)
unfolding copy_in is_buffer_full
device_write wait down nonblock bytes d =
    let (full, d0) = is_buffer_full d in
    let (signal, d1) = wait d0 in
    let d1' = (is_buffer_full d1).1 in
    let (interrupted, d2) = down d1' in
    let writing : Run (Reply × Device) = do (i, d3) ← copy_in bytes 0 d2; done (count i, d3)
    in if full && nonblock
      then done (eagain, d0)
      else if signal
      then done (erestartsys, d1')
      else if interrupted
      then done (erestartsys, d2)
      else writing

pub device_open : Device → Device
device_open d =
    let d' = if d.use_count == 0 then record d { ir = 0; iw = 0 } else d in
    record d' { use_count = (d'.use_count + 1) % 2 ^ 32 }

pub device_release : Device → Device
device_release d = record d { use_count = (d.use_count + (2 ^ 32 - 1)) % 2 ^ 32 }
