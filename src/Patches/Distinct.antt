-- ===== src/Patches/Distinct.antt =====
-- Texts without duplicates, and how many of them there can be among others.
use k8s_clue.Prelude.{
  String, ◌≡◌, refl, true, false, not, ◌&&◌, List, [], ◌∷◌, keep, length, is_in, str_eq, eq_iff,
  eq_refl, arith, ◌≤◌, ◌<◌, Bool-cases, inl, inr,
}
use k8s_clue.Patches.Text.{has_duplicate}

abbrev without : String → List String → List String
without x ys = keep (λ y. not (str_eq y x)) ys

without-in :
    (p x : String) (ys : List String) → is_in p (without x ys) ≡ (is_in p ys && not (str_eq x p))
without-in p x [] = refl
without-in p x (y ∷ ys) = ground (arith, without-in p x ys, eq_iff y x, eq_iff y p, eq_iff x p)

length-without-le : (x : String) (ys : List String) → length (without x ys) ≤ length ys
length-without-le x [] = omega arith
length-without-le x (y ∷ ys) = ground (arith, length-without-le x ys)

length-without :
    (x : String) (ys : List String) → is_in x ys ≡ true → length (without x ys) < length ys
length-without x [] h = ground arith
length-without x (y ∷ ys) h = ground (arith, length-without x ys, length-without-le x ys)

length-in : (p : String) (ys : List String) → is_in p ys ≡ true → 1 ≤ length ys
length-in p [] h = ground arith
length-in p (y ∷ ys) h = omega arith

pub is_in-covers :
    (xs ys : List String)
    → has_duplicate xs ≡ false
    → length ys ≤ length xs
    → ((p : String) → is_in p xs ≡ true → is_in p ys ≡ true)
    → (p : String) → is_in p ys ≡ true
    → is_in p xs ≡ true
is_in-covers [] ys distinct le sub p h = ground (arith, length-in p ys h)
is_in-covers (x ∷ xs) ys distinct le sub p h = elim (Bool-cases (str_eq x p)) [
  | inl e ↦ ground arith
  | inr e ↦ ground (
    arith,
    is_in-covers xs (without x ys) (ground arith)
        (ground (arith, length-without x ys (sub x (ground (arith, eq_refl x)))))
        (λ q k. ground (arith, without-in q x ys, sub q, eq_iff x q)) p,
    without-in p x ys,
  )
]
