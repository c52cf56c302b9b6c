-- ===== src/Strings/Removal.antt =====
-- removechars1 leaves the characters that are not listed, in their order.
use mathlib.Core.Path.{subst}
use mathlib.Core.List.{append-nil, append_assoc}
use codingforfun.Prelude.{
  ℕ, zero, suc, ◌+◌, ◌<◌, ◌≡◌, ◌≢◌, refl, sym, ap, List, [], ◌∷◌, ◌++◌, Bool, true, false, ◌==◌,
  if◌then◌else◌, length, length-append, set, arith, Bool-cases, inl, inr,
}
use codingforfun.Run.{done, Returns, returns}
use codingforfun.Array.{load, store}
use codingforfun.Strings.{has_from, hascharacter, remove_from, removechars1}

-- The character is in the list.
abbrev pub listed : ℕ → List ℕ → Bool
listed c [] = false
listed c (d ∷ remove) = if d == c then true else listed c remove

-- The characters that are not listed.
abbrev pub kept : List ℕ → List ℕ → List ℕ
kept remove [] = []
kept remove (c ∷ text) = if listed c remove then kept remove text else c ∷ kept remove text

-- A string has no 0 in it.
abbrev pub IsText : List ℕ → Type 0
IsText [] = Unit
IsText (c ∷ text) = (c ≢ 0) × IsText text

pub load-append :
    (front back : List ℕ) (c i : ℕ) → length front ≡ i → load (front ++ c ∷ back) i ≡ done c
unfolding load
load-append [] back c zero e = refl
load-append [] back c (suc i) e = absurd (omega arith)
load-append (x ∷ front) back c zero e = absurd (omega arith)
load-append (x ∷ front) back c (suc i) e = load-append front back c i (omega arith)

set-append :
    (front back : List ℕ) (c d i : ℕ)
    → length front ≡ i
    → set (front ++ c ∷ back) i d ≡ front ++ d ∷ back
unfolding set
set-append [] back c d zero e = refl
set-append [] back c d (suc i) e = absurd (omega arith)
set-append (x ∷ front) back c d zero e = absurd (omega arith)
set-append (x ∷ front) back c d (suc i) e =
    ap (λ l. x ∷ l) (set-append front back c d i (omega arith))

store-append :
    (front back : List ℕ) (c d i : ℕ)
    → length front ≡ i
    → store (front ++ c ∷ back) i d ≡ done (front ++ d ∷ back)
unfolding store
store-append front back c d i e =
    rw (set-append front back c d i e) (ground (arith, length-append front (c ∷ back)))

has_from-listed :
    (front remove : List ℕ) (c : ℕ)
    → has_from (length remove) (length front) (front ++ remove) c ≡ done (listed c remove)
unfolding has_from
has_from-listed front [] c = refl
has_from-listed front (d ∷ remove) c =
    let rest = has_from-listed (front ++ d ∷ []) remove c in
    let e : length (front ++ d ∷ []) ≡ length front + 1 = length-append front (d ∷ []) in
    let rest' : has_from (length remove) (length front + 1) (front ++ d ∷ remove) c
        ≡ done (listed c remove) =
      subst (λ l. has_from (length remove) (length front + 1) l c ≡ done (listed c remove))
        (append_assoc front (d ∷ []) remove)
        (subst
          (λ i. has_from (length remove) i ((front ++ d ∷ []) ++ remove) c ≡ done (listed c remove))
          e rest) in
    rw (load-append front remove d (length front) refl)
      (elim (Bool-cases (d == c)) [ inl same ↦ rw same refl | inr other ↦ rw (other, rest') refl ])

hascharacter-listed :
    (remove : List ℕ) (c : ℕ) → hascharacter remove (length remove) c ≡ done (listed c remove)
unfolding hascharacter
hascharacter-listed remove c = has_from-listed [] remove c

-- The first entry of a list that has one more behind it.
first_of :
    (mid : List ℕ) (c : ℕ) (t : List ℕ)
    → (x : ℕ) × (mid' : List ℕ) × (mid ++ c ∷ t ≡ x ∷ (mid' ++ t)) × (length mid' ≡ length mid)
first_of [] c t = (c, [], refl, refl)
first_of (y ∷ mid) c t = (
  y,
  mid ++ c ∷ [],
  ap (λ l. y ∷ l) (sym (append_assoc mid (c ∷ []) t)),
  omega (arith, length-append mid (c ∷ [])),
)

-- The array starts with the text, which ends there.
abbrev pub Reads : List ℕ → List ℕ → Type 0
Reads text str = (rest : List ℕ) × (str ≡ text ++ 0 ∷ rest)

-- `front` is done, and `mid` lies between `dest` and `src`.
remove_from-Reads :
    (fuel : ℕ) (front mid text rest remove : List ℕ)
    → length text < fuel
    → IsText text
    → Returns (Reads (front ++ kept remove text)) (
        remove_from fuel
          (length front)
          (length front + length mid)
          (front ++ (mid ++ (text ++ 0 ∷ rest)))
          remove
          (length remove))
unfolding remove_from
remove_from-Reads zero front mid text rest remove enough is = absurd (omega arith)
remove_from-Reads (suc fuel) front mid [] rest remove enough is =
    let (x, mid', e, same) = first_of mid 0 rest in
    let read =
      load-append (front ++ mid) rest 0 (length front + length mid) (length-append front mid) in
    let read' =
      subst (λ l. load l (length front + length mid) ≡ done 0) (append_assoc front mid (0 ∷ rest))
        read in
    rw (read', e, store-append front (mid' ++ rest) x 0 (length front) refl)
      (returns (mid' ++ rest, ap (λ l. l ++ 0 ∷ (mid' ++ rest)) (sym (append-nil front))))
remove_from-Reads (suc fuel) front mid (c ∷ text) rest remove enough is =
    let t = text ++ 0 ∷ rest in
    let (x, mid', e, same) = first_of mid c t in
    let read =
      load-append (front ++ mid) t c (length front + length mid) (length-append front mid) in
    let read' =
      subst (λ l. load l (length front + length mid) ≡ done c) (append_assoc front mid (c ∷ t))
        read in
    let go : (c == 0) ≡ false = ground (arith, is.0) in
    let next : length front + length mid + 1 ≡ length front + length (c ∷ mid') = omega arith in
    rw
      (
        read',
        go,
        e,
        store-append front (mid' ++ t) x c (length front) refl,
        hascharacter-listed remove c,
      )
      (elim (Bool-cases (listed c remove)) [
        | inl drop ↦
            rw (drop, next)
              (remove_from-Reads fuel front (c ∷ mid') text rest remove (omega arith) is.1)
        | inr keep ↦
            let one_more : length front + 1 ≡ length (front ++ c ∷ []) =
              omega (arith, length-append front (c ∷ [])) in
            let place : length front + length mid + 1 ≡ length (front ++ c ∷ []) + length mid' =
              omega (arith, length-append front (c ∷ [])) in
            let rest' =
              remove_from-Reads fuel (front ++ c ∷ []) mid' text rest remove (omega arith) is.1 in
            let str = append_assoc front (c ∷ []) (mid' ++ t) in
            let out = append_assoc front (c ∷ []) (kept remove text) in
            rw (keep, one_more, place, ← str, ← out) rest'
      ])

-- removechars1 on an array with a string that ends in 0 never accesses memory outside of it, ends,
-- and leaves the string of the characters that are not among the `n` listed, in their order.
pub removechars1-Reads :
    (fuel : ℕ) (text rest remove : List ℕ)
    → length text < fuel
    → IsText text
    → Returns
        (Reads (kept remove text))
        (removechars1 fuel (text ++ 0 ∷ rest) remove (length remove))
unfolding removechars1
removechars1-Reads fuel text rest remove enough is =
    remove_from-Reads fuel [] [] text rest remove enough is
