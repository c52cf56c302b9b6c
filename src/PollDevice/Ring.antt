-- ===== src/PollDevice/Ring.antt =====
-- The ring as a queue: its bytes in order, the invariant that every operation keeps, and what the
-- two loops do to the queue.
use mathlib.Core.List.{append-nil, append_assoc}
use codingforfun.Prelude.{
  ℕ, zero, suc, ◌+◌, ◌-◌, ◌≤◌, ◌<◌, ◌≡◌, ◌≢◌, ◌⊎◌, refl, sym, ap, ◌∙◌, List, [], ◌∷◌, ◌++◌, leb,
  ◌==◌, if◌then◌else◌, arith, length, set, get_or-set, length-set, Bool-cases, inl, inr,
}
use codingforfun.Run.{Returns, returns, Returns-mono, Returns-bind}
use codingforfun.Array.{load-done, store-done, at}
use codingforfun.PollDevice.{
  ring_size, Device, is_buffer_full, next_place, copy_out, copy_in, device_open, device_release,
}

-- How many steps lead from one place to another.
abbrev pub steps : ℕ → ℕ → ℕ
steps i j = if leb i j then j - i else j + ring_size - i

-- So many bytes from a place on.
abbrev pub window : List ℕ → ℕ → ℕ → List ℕ
window buf i zero = []
window buf i (suc n) = at buf i ∷ window buf (next_place i) n

-- The bytes that are still to be read, oldest first.
abbrev pub contents : Device → List ℕ
contents d = window d.rbuf d.ir (steps d.ir d.iw)

-- The writer never gets as far as the reader: what is stored and what it may still write are at
-- most 22 bytes.
pub record IsValid (d : Device) : Type 0 where
  pub size : length d.rbuf ≡ ring_size + 1
  pub ir_in : d.ir < ring_size
  pub iw_in : d.iw < ring_size
  pub ih_in : d.ih < ring_size
  pub apart : steps d.ir d.iw + steps d.iw d.ih ≤ ring_size - 1

pub next_place-lt : (i : ℕ) → i < ring_size → next_place i < ring_size
unfolding next_place
next_place-lt i h = ground arith

steps_from :
    (i j : ℕ) → i < ring_size → j < ring_size → i ≢ j → steps i j ≡ suc (steps (next_place i) j)
unfolding next_place
steps_from i j hi hj ne = ground arith

steps_to :
    (i j : ℕ)
    → i < ring_size
    → j < ring_size
    → steps i j < ring_size - 1
    → steps i (next_place j) ≡ suc (steps i j)
unfolding next_place
steps_to i j hi hj room = ground arith

-- A write elsewhere.
window-set :
    (n : ℕ) (buf : List ℕ) (i p v : ℕ)
    → i < ring_size
    → p < ring_size
    → p < length buf
    → n ≤ steps i p
    → window (set buf p v) i n ≡ window buf i n
window-set zero buf i p v hi hp fits le = refl
window-set (suc n) buf i p v hi hp fits le =
    let ne : p ≢ i = ground arith in
    let on = steps_from i p hi hp (λ e. ne (sym e)) in
    let head : at (set buf p v) i ≡ at buf i = ground (arith, get_or-set buf p i v 0) in
    let tail = window-set n buf (next_place i) p v (next_place-lt i hi) hp fits (omega arith) in
    rw (head, tail) refl

-- A write at the end.
window-last :
    (n : ℕ) (buf : List ℕ) (i p : ℕ)
    → i < ring_size
    → p < ring_size
    → n ≡ steps i p
    → window buf i (suc n) ≡ window buf i n ++ at buf p ∷ []
window-last zero buf i p hi hp e = let same : i ≡ p = ground arith in rw same refl
window-last (suc n) buf i p hi hp e =
    let ne : i ≢ p = ground arith in
    let on = steps_from i p hi hp ne in
    ap (λ l. at buf i ∷ l)
      (window-last n buf (next_place i) p (next_place-lt i hi) hp (omega arith))

-- What is read, and what is left.
pub record Read (left i : ℕ) (d : Device) (n : ℕ) (out : List ℕ) (d' : Device) : Type 0 where
  pub valid : IsValid d'
  pub same : (d'.rbuf ≡ d.rbuf) × (d'.iw ≡ d.iw) × (d'.ih ≡ d.ih) × (d'.use_count ≡ d.use_count)
  pub counted : n ≡ i + length out
  pub fifo : out ++ contents d' ≡ contents d
  pub most : (n ≡ i + left) ⊎ (contents d' ≡ [])

pub copy_out-Read :
    (left i : ℕ) (d : Device)
    → IsValid d
    → Returns (λ (n, out, d'). Read left i d n out d') (copy_out left i d)
unfolding copy_out
copy_out-Read zero i d v = returns (record {
  valid = v;
  same = (refl, refl, refl, refl);
  counted = omega arith;
  fifo = refl;
  most = inl (omega arith);
})
copy_out-Read (suc left) i d v = elim (Bool-cases (d.ir == d.iw)) [
  | inl empty ↦
      let none : steps d.ir d.iw ≡ 0 = ground arith in
      rw empty (
        returns (record {
          valid = v;
          same = (refl, refl, refl, refl);
          counted = omega arith;
          fifo = refl;
          most = inr (rw none refl);
        }))
  | inr more ↦
      let ne : d.ir ≢ d.iw = ground arith in
      let on = steps_from d.ir d.iw v.ir_in v.iw_in ne in
      let next = record d { ir = next_place d.ir } in
      let valid : IsValid next = record {
        size = v.size;
        ir_in = next_place-lt d.ir v.ir_in;
        iw_in = v.iw_in;
        ih_in = v.ih_in;
        apart = omega (arith, v.apart);
      } in
      rw (more, load-done 0 d.rbuf d.ir (omega (arith, v.size, v.ir_in)))
        (Returns-bind (copy_out-Read left (i + 1) next valid) λ (n, out, d') r. returns (record {
          valid = r.valid;
          same = r.same;
          counted = omega (arith, r.counted);
          fifo = rw on (ap (λ l. at d.rbuf d.ir ∷ l) r.fifo);
          most = ground (arith, r.most);
        }))
]

-- What is written, and what there was no room for.
pub record Written (bytes : List ℕ) (i : ℕ) (d : Device) (n : ℕ) (d' : Device) : Type 0 where
  pub valid : IsValid d'
  pub same : (d'.ir ≡ d.ir) × (d'.ih ≡ d.ih) × (d'.use_count ≡ d.use_count)
  pub taken : List ℕ
  pub rest : List ℕ
  pub split : taken ++ rest ≡ bytes
  pub counted : n ≡ i + length taken
  pub fifo : contents d' ≡ contents d ++ taken
  pub most : (rest ≡ []) ⊎ (d'.iw ≡ d'.ih)

pub copy_in-Written :
    (bytes : List ℕ) (i : ℕ) (d : Device)
    → IsValid d
    → Returns (λ (n, d'). Written bytes i d n d') (copy_in bytes i d)
unfolding copy_in
copy_in-Written [] i d v = returns (record {
  valid = v;
  same = (refl, refl, refl);
  taken = [];
  rest = [];
  split = refl;
  counted = omega arith;
  fifo = sym (append-nil (contents d));
  most = inl refl;
})
copy_in-Written (c ∷ bytes) i d v = elim (Bool-cases (d.iw == d.ih)) [
  | inl full ↦ rw full (
      returns (record {
        valid = v;
        same = (refl, refl, refl);
        taken = [];
        rest = c ∷ bytes;
        split = refl;
        counted = omega arith;
        fifo = sym (append-nil (contents d));
        most = inr (ground arith);
      }))
  | inr more ↦
      let ne : d.iw ≢ d.ih = ground arith in
      let fits : d.iw < length d.rbuf = omega (arith, v.size, v.iw_in) in
      let on = steps_from d.iw d.ih v.iw_in v.ih_in ne in
      let up = steps_to d.ir d.iw v.ir_in v.iw_in (omega (arith, v.apart)) in
      let b = set d.rbuf d.iw c in
      let next = record d { rbuf = b; iw = next_place d.iw } in
      let valid : IsValid next = record {
        size = length-set d.rbuf d.iw c ∙ v.size;
        ir_in = v.ir_in;
        iw_in = next_place-lt d.iw v.iw_in;
        ih_in = v.ih_in;
        apart = omega (arith, v.apart);
      } in
      let old =
        window-set (steps d.ir d.iw) d.rbuf d.ir d.iw c v.ir_in v.iw_in fits (omega arith) in
      let new : at b d.iw ≡ c = ground (arith, get_or-set d.rbuf d.iw d.iw c 0) in
      let longer : contents next ≡ contents d ++ c ∷ [] =
        rw up
          (window-last (steps d.ir d.iw) b d.ir d.iw v.ir_in v.iw_in refl ∙ rw (old, new) refl) in
      rw (more, store-done d.rbuf d.iw c fits)
        (Returns-mono (copy_in-Written bytes (i + 1) next valid) λ (n, d') w. record {
          valid = w.valid;
          same = w.same;
          taken = c ∷ w.taken;
          rest = w.rest;
          split = ap (λ l. c ∷ l) w.split;
          counted = omega (arith, w.counted);
          fifo = w.fifo ∙ rw longer (append_assoc (contents d) (c ∷ []) w.taken);
          most = w.most;
        })
]

pub is_buffer_full-IsValid : (d : Device) → IsValid d → IsValid (is_buffer_full d).1
unfolding is_buffer_full
is_buffer_full-IsValid d v = record {
  size = v.size;
  ir_in = v.ir_in;
  iw_in = v.iw_in;
  ih_in = ground (arith, v.ir_in);
  apart = ground (arith, v.ir_in, v.iw_in);
}

device_open-IsValid : (d : Device) → IsValid d → IsValid (device_open d)
unfolding device_open
device_open-IsValid d v = elim (Bool-cases (d.use_count == 0)) [
  | inl first ↦ rw first (record {
    size = v.size;
    ir_in = omega arith;
    iw_in = omega arith;
    ih_in = v.ih_in;
    apart = ground (arith, v.ih_in);
  })
  | inr other ↦
      rw other (record {
        size = v.size;
        ir_in = v.ir_in;
        iw_in = v.iw_in;
        ih_in = v.ih_in;
        apart = v.apart;
      })
]

pub device_release-IsValid : (d : Device) → IsValid d → IsValid (device_release d)
unfolding device_release
device_release-IsValid d v = record {
  size = v.size;
  ir_in = v.ir_in;
  iw_in = v.iw_in;
  ih_in = v.ih_in;
  apart = v.apart;
}
