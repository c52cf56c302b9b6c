-- ===== src/PollDevice/Calls.antt =====
-- The calls of the device as operations of a queue of bytes.
use Prim.Native.Nat.{bit_or}
use codingforfun.Prelude.{
  ℕ, zero, suc, ◌-◌, ◌≡◌, ◌⊎◌, refl, ap, Bool, true, not, ◌&&◌, List, [], ◌++◌, ltb, ◌==◌,
  if◌then◌else◌, arith, length,
}
use codingforfun.Run.{Returns, returns, Returns-bind, Returns-if}
use codingforfun.PollDevice.{
  ring_size, Device, Reply, eagain, erestartsys, count, is_buffer_full, is_buffer_empty, next_place,
  device_poll, device_read, device_write,
}
use codingforfun.PollDevice.Ring.{
  steps, window, contents, IsValid, copy_out-Read, copy_in-Written, is_buffer_full-IsValid,
}

-- What a call of the kernel leaves is a valid device.
abbrev pub Keeps : (Device → Bool × Device) → Type 0
Keeps call = (d : Device) → IsValid d → IsValid (call d).1

-- device_read on `d`, where the semaphore is taken on `held`.
abbrev pub ReadReply : Bool → ℕ → Device → Device → Reply → List ℕ → Device → Type 0
ReadReply nonblock len d held eagain out d' =
    (nonblock ≡ true) × (contents d ≡ []) × (out ≡ []) × (d' ≡ d)
ReadReply nonblock len d held erestartsys out d' = out ≡ []
ReadReply nonblock len d held (count n) out d' =
    (n ≡ length out) × (out ++ contents d' ≡ contents held) × ((n ≡ len) ⊎ (contents d' ≡ []))

both : (b c : Bool) → (b && c) ≡ true → (b ≡ true) × (c ≡ true)
both b c e = ground arith

contents-empty : (d : Device) → is_buffer_empty d ≡ true → contents d ≡ []
unfolding is_buffer_empty
contents-empty d e = let none : steps d.ir d.iw ≡ 0 = ground arith in rw none refl

-- device_read keeps the invariant, never reads outside the buffer, and takes the oldest bytes: all
-- that were asked for, or all that there are.
pub device_read-ReadReply :
    (wait down : Device → Bool × Device) (nonblock : Bool) (len : ℕ) (d : Device)
    → Keeps wait
    → Keeps down
    → IsValid d
    → Returns
        (λ (r, out, d'). IsValid d' × ReadReply nonblock len d (down (wait d).1).1 r out d')
        (device_read wait down nonblock len d)
unfolding device_read
device_read-ReadReply wait down nonblock len d wait_keeps down_keeps v =
    let v1 = wait_keeps d v in
    let v2 = down_keeps (wait d).1 v1 in
    Returns-if (is_buffer_empty d && nonblock)
      (λ again. returns (
        v,
        (
          (both (is_buffer_empty d) nonblock again).1,
          contents-empty d (both (is_buffer_empty d) nonblock again).0,
          refl,
          refl,
        ),
      ))
      λ _.
        Returns-if (wait d).0 (λ _. returns (v1, refl))
          λ _.
            Returns-if (down (wait d).1).0 (λ _. returns (v2, refl))
              λ _. Returns-bind (copy_out-Read len 0 (down (wait d).1).1 v2) λ (i, out, d3) r.
                returns (r.valid, (omega (arith, r.counted), r.fifo, ground (arith, r.most)))

-- device_write on `d`, where the semaphore is taken on `held`.
abbrev pub WriteReply : Bool → List ℕ → Device → Device → Reply → Device → Type 0
WriteReply nonblock bytes d held eagain d' =
    (nonblock ≡ true) × (length (contents d) ≡ ring_size - 1) × (contents d' ≡ contents d)
WriteReply nonblock bytes d held erestartsys d' = Unit
WriteReply nonblock bytes d held (count n) d' =
    (taken rest : List ℕ) × (taken ++ rest ≡ bytes)
    × (n ≡ length taken)
    × (contents d' ≡ contents held ++ taken)
    × ((rest ≡ []) ⊎ (d'.iw ≡ d'.ih))

-- Where the writer would meet the reader, the buffer holds 22 bytes.
steps-full : (d : Device) → IsValid d → (is_buffer_full d).0 ≡ (steps d.ir d.iw == ring_size - 1)
unfolding is_buffer_full
steps-full d v = ground (arith, v.ir_in, v.iw_in)

length-window : (n : ℕ) (buf : List ℕ) (i : ℕ) → length (window buf i n) ≡ n
length-window zero buf i = refl
length-window (suc n) buf i = ap suc (length-window n buf (next_place i))

pub length-contents : (d : Device) → length (contents d) ≡ steps d.ir d.iw
length-contents d = length-window (steps d.ir d.iw) d.rbuf d.ir

contents-is_buffer_full : (d : Device) → contents (is_buffer_full d).1 ≡ contents d
unfolding is_buffer_full
contents-is_buffer_full d = refl

-- Where other tasks keep the invariant, device_write keeps it, never writes outside the buffer, and
-- appends the first bytes that it is given: all of them, or as many as there is room for up to `ih`.
-- It returns -EAGAIN only without waiting, on a buffer of 22 bytes, and then changes none of them.
pub device_write-WriteReply :
    (wait down : Device → Bool × Device) (nonblock : Bool) (bytes : List ℕ) (d : Device)
    → Keeps wait
    → Keeps down
    → IsValid d
    → Returns
        (λ (r, d').
          IsValid d'
          × WriteReply nonblock bytes d
              (down (is_buffer_full (wait (is_buffer_full d).1).1).1).1
              r
              d')
        (device_write wait down nonblock bytes d)
unfolding device_write
device_write-WriteReply wait down nonblock bytes d wait_keeps down_keeps v =
    let d0 = (is_buffer_full d).1 in
    let v0 = is_buffer_full-IsValid d v in
    let d1 = (wait d0).1 in
    let v1 = is_buffer_full-IsValid d1 (wait_keeps d0 v0) in
    let d2 = (down (is_buffer_full d1).1).1 in
    let v2 = down_keeps (is_buffer_full d1).1 v1 in
    Returns-if ((is_buffer_full d).0 && nonblock)
      (λ again.
        let e = both (is_buffer_full d).0 nonblock again in
        let full : length (contents d) ≡ ring_size - 1 =
          ground (arith, e.0, steps-full d v, length-contents d) in
        returns (v0, (e.1, full, contents-is_buffer_full d)))
      λ _.
        Returns-if (wait d0).0 (λ _. returns (v1, tt))
          λ _.
            Returns-if (down (is_buffer_full d1).1).0 (λ _. returns (v2, tt))
              λ _. Returns-bind (copy_in-Written bytes 0 d2 v2) λ (i, d3) w.
                returns
                  (w.valid, (w.taken, w.rest, w.split, omega (arith, w.counted), w.fifo, w.most))

is_buffer_empty-length : (d : Device) → IsValid d → is_buffer_empty d ≡ (length (contents d) == 0)
unfolding is_buffer_empty
is_buffer_empty-length d v = rw (length-contents d) (ground (arith, v.ir_in, v.iw_in))

not_full :
    (d : Device) → IsValid d → not (is_buffer_full d).0 ≡ ltb (length (contents d)) (ring_size - 1)
unfolding is_buffer_full
not_full d v = rw (length-contents d) (ground (arith, v.ir_in, v.iw_in))

-- device_poll tells that the device is readable exactly if it holds a byte, and writable exactly if
-- it holds fewer than 22.
pub device_poll-contents :
    (pollin pollout : ℕ) (d : Device)
    → IsValid d
    → (device_poll pollin pollout d).0 ≡ (
        let mask = if length (contents d) == 0 then 0 else bit_or 0 pollin in
        if ltb (length (contents d)) (ring_size - 1) then bit_or mask pollout else mask)
unfolding device_poll
device_poll-contents pollin pollout d v =
    let n = length-contents d in
    let empty : is_buffer_empty d ≡ (length (contents d) == 0) = is_buffer_empty-length d v in
    let full : not (is_buffer_full d).0 ≡ ltb (length (contents d)) (ring_size - 1) =
      not_full d v in
    rw (empty, full) (ground arith)
