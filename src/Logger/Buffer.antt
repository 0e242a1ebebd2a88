-- ===== src/Logger/Buffer.antt =====
-- `LogBuffer` of nvr_core/logger/buffer.go. An entry is a string; `none` is the panic of `items[1:]`
-- on an empty slice.
use Prim.Native.String.{String}
use mathlib.Core.List.{append-nil, append_assoc}
use rm_vms.Base.{
  ℕ, zero, suc, ◌+◌, ◌-◌, ◌≤◌, ◌<◌, ◌≡◌, refl, sym, ap, ◌∙◌, subst, inl, inr, Option, none, some,
  List, [], ◌∷◌, ◌++◌, leb, if◌then◌else◌, length, drop, length-append, length-drop, drop-add,
  arith, Bool-cases,
}

pub record LogBuffer : Type 0 where
  pub items : List String
  pub capacity : ℕ

unfoldable pub new_buffer : ℕ → LogBuffer
new_buffer capacity = record { items = []; capacity = capacity }

-- `b.items[1:]`
abbrev pub shift_left : List String → Option (List String)
shift_left [] = none
shift_left (x ∷ xs) = some xs

unfoldable pub write_entry : LogBuffer → String → Option LogBuffer
write_entry b p =
    if leb b.capacity (length b.items)
    then elim (shift_left b.items) [
      | none ↦ none
      | some rest ↦ some (record b { items = rest ++ p ∷ [] })
    ]
    else some (record b { items = b.items ++ p ∷ [] })

unfoldable pub snapshot : LogBuffer → List String
snapshot b = b.items

unfoldable pub write_all : LogBuffer → List String → Option LogBuffer
write_all b [] = some b
write_all b (p ∷ ps) = elim (write_entry b p) [ none ↦ none | some b' ↦ write_all b' ps ]

-- The last `n` items of a list.
abbrev pub last_of : ℕ → List String → List String
last_of n xs = drop (length xs - n) xs

-- The buffer has the last `capacity` of the entries `xs`.
unfoldable pub HoldsLast : LogBuffer → List String → Type 0
HoldsLast b xs = b.items ≡ last_of b.capacity xs

drop-append : (n : ℕ) (xs ys : List String) → n ≤ length xs → drop n (xs ++ ys) ≡ drop n xs ++ ys
drop-append zero xs ys h = refl
drop-append (suc n) [] ys h = absurd (omega arith)
drop-append (suc n) (x ∷ xs) ys h = drop-append n xs ys (omega arith)

shift-drop : (xs : List String) → 1 ≤ length xs → shift_left xs ≡ some (drop 1 xs)
shift-drop [] h = absurd (omega arith)
shift-drop (x ∷ xs) h = refl

write_entry-HoldsLast :
    (b : LogBuffer) (p : String) (xs : List String)
    → 1 ≤ b.capacity
    → HoldsLast b xs
    → (b' : LogBuffer) × (write_entry b p ≡ some b')
      × (b'.capacity ≡ b.capacity)
      × HoldsLast b' (xs ++ p ∷ [])
unfolding HoldsLast write_entry
write_entry-HoldsLast b p xs room holds = elim (Bool-cases (leb b.capacity (length b.items))) [
  | inl full ↦
      let long : b.capacity ≤ length xs = ground (arith, size) in
      let k = length xs - b.capacity in
      let shifted : shift_left b.items ≡ some (drop (k + 1) xs) =
        ap shift_left holds
        ∙ shift-drop (drop k xs) (omega (arith, length-drop k xs))
        ∙ ap some (sym (drop-add k 1 (k + 1) xs (omega arith))) in
      (
        record b { items = drop (k + 1) xs ++ p ∷ [] },
        rw (write_entry, full, shifted) refl,
        refl,
        sym (drop-append (k + 1) xs (p ∷ []) (omega arith))
            ∙ ap (λ n. drop n (xs ++ p ∷ [])) (omega (arith, length-append xs (p ∷ []), long)),
      )
  | inr some_room ↦
      let short : length xs < b.capacity = ground (arith, size) in
      let none_gone : length xs - b.capacity ≡ 0 = omega arith in
      let still_none : 0 ≡ length (xs ++ p ∷ []) - b.capacity =
        omega (arith, length-append xs (p ∷ []), short) in
      (
        record b { items = b.items ++ p ∷ [] },
        rw (write_entry, some_room) refl,
        refl,
        ap (λ l. l ++ p ∷ []) (holds ∙ ap (λ n. drop n xs) none_gone)
            ∙ ap (λ n. drop n (xs ++ p ∷ [])) still_none,
      )
]
  where
    size : length b.items ≡ length xs - (length xs - b.capacity)
    size = ap length holds ∙ length-drop (length xs - b.capacity) xs

-- Any number of writes goes through, to a buffer with room for one entry or more.
write_all-HoldsLast :
    (ps : List String) (b : LogBuffer) (xs : List String)
    → 1 ≤ b.capacity
    → HoldsLast b xs
    → (b' : LogBuffer) × (write_all b ps ≡ some b')
      × (b'.capacity ≡ b.capacity)
      × HoldsLast b' (xs ++ ps)
unfolding write_all
write_all-HoldsLast [] b xs room holds =
    (b, refl, refl, subst (HoldsLast b) (sym (append-nil xs)) holds)
write_all-HoldsLast (p ∷ ps) b xs room holds =
    let (b1, done1, same1, holds1) = write_entry-HoldsLast b p xs room holds in
    let (b2, done2, same2, holds2) =
      write_all-HoldsLast ps b1 (xs ++ p ∷ []) (subst (λ n. 1 ≤ n) (sym same1) room) holds1 in
    (
      b2,
      rw (write_all, done1, done2) refl,
      same2 ∙ same1,
      subst (HoldsLast b2) (append_assoc xs (p ∷ []) ps) holds2,
    )

drop_empty : (n : ℕ) → [] ≡ drop {A = String} n []
drop_empty zero = refl
drop_empty (suc n) = refl

-- After any writes to a new buffer with room for one entry or more, the snapshot is the last
-- `capacity` of the entries written, in their order, and no write panicked.
pub snapshot_is_last :
    (capacity : ℕ) (ps : List String)
    → 1 ≤ capacity
    → (b : LogBuffer) × (write_all (new_buffer capacity) ps ≡ some b)
      × (snapshot b ≡ last_of capacity ps)
unfolding new_buffer snapshot HoldsLast
snapshot_is_last capacity ps room =
    let (b, done, same, holds) =
      write_all-HoldsLast ps (new_buffer capacity) [] room (drop_empty (0 - capacity)) in
    (b, done, holds ∙ ap (λ n. last_of n ps) same)
