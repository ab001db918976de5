-- ===== src/Cosy/Encoding/Thirds.antt =====
-- The swap of internal/qodertransport/cosy/encoding.go undoes itself.
use qoder_cpa.Prelude.{
  ℕ, zero, suc, ◌+◌, ◌-◌, ◌/◌, ◌≤◌, [], ◌∷◌, ◌++◌, Text, length, take, drop, length-append,
  length-take, length-drop, take-append, drop-append, take-append-drop, ◌≡◌, refl, arith, sym, ap,
  ◌∙◌, append_assoc,
}
use qoder_cpa.Cosy.Encoding.{swap_outer_thirds}

take-take : (q k : ℕ) (s : Text) → q ≤ k → take q (take k s) ≡ take q s
take-take zero k s h = refl
take-take (suc q) zero s h = absurd (omega arith)
take-take (suc q) (suc k) [] h = refl
take-take (suc q) (suc k) (c ∷ s) h = ap (◌∷◌ c) (take-take q k s (omega arith))

-- A text in three parts is cut at the lengths of the first and of the first two.
cut_parts :
    (a m b : Text) (q k : ℕ)
    → q ≡ length a
    → k ≡ length a + length m
    → drop k (a ++ (m ++ b)) ++ (drop q (take k (a ++ (m ++ b))) ++ take q (a ++ (m ++ b)))
      ≡ b ++ (m ++ a)
cut_parts a m b q k hq hk =
    let regroup : a ++ (m ++ b) ≡ (a ++ m) ++ b = sym (append_assoc a m b) in
    let at : k ≡ length (a ++ m) = omega (arith, length-append a m) in
    let last : drop k (a ++ (m ++ b)) ≡ b = rw regroup (drop-append (a ++ m) b k at) in
    let first : take k (a ++ (m ++ b)) ≡ a ++ m = rw regroup (take-append (a ++ m) b k at) in
    rw (last, first, drop-append a m q hq, take-append a (m ++ b) q hq) refl

-- The outer parts have a third of the length each.
swap_parts :
    (a m b : Text)
    → length a ≡ length b
    → (length a + length m + length b) / 3 ≡ length a
    → swap_outer_thirds (a ++ (m ++ b)) ≡ b ++ (m ++ a)
unfolding swap_outer_thirds
swap_parts a m b same third =
    let n : length (a ++ (m ++ b)) ≡ length a + length m + length b =
      omega (arith, length-append a (m ++ b), length-append m b) in
    cut_parts a m b (length (a ++ (m ++ b)) / 3)
      (length (a ++ (m ++ b)) - length (a ++ (m ++ b)) / 3) (rw n third) (omega arith)

-- The parts of a text.
third : Text → ℕ
third s = length s / 3

first : Text → Text
first s = take (third s) s

middle : Text → Text
middle s = drop (third s) (take (length s - third s) s)

last : Text → Text
last s = drop (length s - third s) s

parts : (s : Text) → first s ++ (middle s ++ last s) ≡ s
unfolding first middle last third
parts s =
    let q = length s / 3 in
    let k = length s - length s / 3 in
    sym (append_assoc (take q s) (drop q (take k s)) (drop k s))
    ∙ ap (λ (x : Text). (x ++ drop q (take k s)) ++ drop k s) (sym (take-take q k s (omega arith)))
    ∙ ap (λ (x : Text). x ++ drop k s) (take-append-drop q (take k s))
    ∙ take-append-drop k s

length-first : (s : Text) → length (first s) ≡ length s / 3
unfolding first third
length-first s = omega (arith, length-take (length s / 3) s)

length-middle : (s : Text) → length (middle s) ≡ length s - length s / 3 - length s / 3
unfolding middle third
length-middle s = omega (
  arith,
  length-drop (length s / 3) (take (length s - length s / 3) s),
  length-take (length s - length s / 3) s,
)

length-last : (s : Text) → length (last s) ≡ length s / 3
unfolding last third
length-last s = omega (arith, length-drop (length s - length s / 3) s)

swapped : (s : Text) → swap_outer_thirds s ≡ last s ++ (middle s ++ first s)
unfolding swap_outer_thirds first middle last third
swapped s = refl

-- Swapping twice gives the text back, and its length never changes.
pub swap_outer_thirds_twice :
    (s : Text)
    → (swap_outer_thirds (swap_outer_thirds s) ≡ s) × (length (swap_outer_thirds s) ≡ length s)
swap_outer_thirds_twice s = (
  rw (swapped s) (
      swap_parts (last s) (middle s) (first s) (omega (arith, length-first s, length-last s))
        (omega (arith, length-first s, length-last s, length-middle s))
      ∙ parts s),
  rw (swapped s) (
      omega (
        arith,
        length-first s,
        length-last s,
        length-middle s,
        length-append (last s) (middle s ++ first s),
        length-append (middle s) (first s),
      )),
)
