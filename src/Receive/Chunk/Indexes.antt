-- ===== src/Receive/Chunk/Indexes.antt =====
-- The set of received chunk indexes.
use lan_send.Base.{
  ℕ, zero, suc, ◌+◌, ◌≤◌, ◌<◌, ◌≡◌, refl, true, false, ◌==◌, if◌then◌else◌, List, [], ◌∷◌, length,
  arith, Bool-cases, inl, inr,
}
use lan_send.Receive.Chunk.{contains, insert}

abbrev pub Distinct : List ℕ → Type 0
Distinct [] = Unit {0}
Distinct (i ∷ is) = (contains i is ≡ false) × Distinct is

abbrev pub AllBelow : ℕ → List ℕ → Type 0
AllBelow n [] = Unit {0}
AllBelow n (i ∷ is) = (i < n) × AllBelow n is

pub contains-insert :
    (i j : ℕ) (is : List ℕ) → contains j (insert i is) ≡ (if j == i then true else contains j is)
unfolding insert contains
contains-insert i j is = ground arith

pub insert-Distinct : (i : ℕ) (is : List ℕ) → Distinct is → Distinct (insert i is)
unfolding insert
insert-Distinct i is h = ground arith

pub insert-AllBelow : (n i : ℕ) (is : List ℕ) → i < n → AllBelow n is → AllBelow n (insert i is)
unfolding insert
insert-AllBelow n i is lt h = ground arith

-- Without the index n.
remove : ℕ → List ℕ → List ℕ
remove n [] = []
remove n (i ∷ is) = if i == n then remove n is else i ∷ remove n is

contains-remove : (n i : ℕ) (is : List ℕ) → contains i is ≡ false → contains i (remove n is) ≡ false
unfolding contains remove
contains-remove n i [] h = h
contains-remove n i (j ∷ is) h = ground (arith, contains-remove n i is)

remove-Distinct : (n : ℕ) (is : List ℕ) → Distinct is → Distinct (remove n is)
unfolding remove
remove-Distinct n [] h = tt
remove-Distinct n (i ∷ is) h = ground (arith, contains-remove n i is h.0, remove-Distinct n is h.1)

remove-AllBelow : (n : ℕ) (is : List ℕ) → AllBelow (suc n) is → AllBelow n (remove n is)
unfolding remove
remove-AllBelow n [] h = tt
remove-AllBelow n (i ∷ is) h = ground (arith, remove-AllBelow n is h.1)

remove_absent : (n : ℕ) (is : List ℕ) → contains n is ≡ false → remove n is ≡ is
unfolding remove contains
remove_absent n [] h = refl
remove_absent n (i ∷ is) h = ground (arith, remove_absent n is)

length-remove : (n : ℕ) (is : List ℕ) → Distinct is → length is ≤ length (remove n is) + 1
unfolding remove
length-remove n [] h = omega arith
length-remove n (i ∷ is) h = ground (arith, length-remove n is h.1, remove_absent n is)

Distinct-bound : (n : ℕ) (is : List ℕ) → Distinct is → AllBelow n is → length is ≤ n
Distinct-bound zero [] d b = omega arith
Distinct-bound zero (i ∷ is) d b = absurd (omega arith)
Distinct-bound (suc n) is d b = omega (
  arith,
  length-remove n is d,
  Distinct-bound n (remove n is) (remove-Distinct n is d) (remove-AllBelow n is b),
)

-- n distinct indexes below n are all of them.
pub contains_all :
    (n i : ℕ) (is : List ℕ)
    → Distinct is
    → AllBelow n is
    → length is ≡ n
    → i < n
    → contains i is ≡ true
contains_all n i is d b full h = elim (Bool-cases (contains i is)) [
  | inl e ↦ e
  | inr e ↦ absurd (omega (arith, Distinct-bound n (i ∷ is) (e, d) (h, b)))
]
