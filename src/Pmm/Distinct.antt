-- ===== src/Pmm/Distinct.antt =====
-- Lists of pages as sets: membership, distinctness and moving one page about.
use mini_user_os.Prelude.{
  ℕ, suc, ◌≡◌, ◌≢◌, ◌↔◌, inl, inr, refl, sym, List, [], ◌∷◌, ◌++◌, arith, length,
}
use mathlib.Core.Path.{subst}
use mini_user_os.Pmm.Pool.{Outside}
use mini_user_os.Pmm.Pages.{In}

abbrev pub Distinct : List ℕ → Type 0
Distinct [] = Unit {0}
Distinct (x ∷ xs) = Outside x xs × Distinct xs

pub In-append-cons : (y x : ℕ) (xs ys : List ℕ) → In y (xs ++ (x ∷ ys)) ↔ In y (x ∷ (xs ++ ys))
In-append-cons y x [] ys = (λ i. i, λ i. i)
In-append-cons y x (a ∷ xs) ys = (
  elim [
    | inl e ↦ inr (inl e)
    | inr i ↦ elim ((In-append-cons y x xs ys).0 i) [ inl e ↦ inl e | inr j ↦ inr (inr j) ]
  ],
  elim [
    | inl e ↦ inr ((In-append-cons y x xs ys).1 (inl e))
    | inr i ↦ elim i [ inl e ↦ inl e | inr j ↦ inr ((In-append-cons y x xs ys).1 (inr j)) ]
  ],
)

pub Outside-append-cons :
    (y x : ℕ) (xs ys : List ℕ) → Outside y (xs ++ (x ∷ ys)) ↔ Outside y (x ∷ (xs ++ ys))
Outside-append-cons y x [] ys = (λ i. i, λ i. i)
Outside-append-cons y x (a ∷ xs) ys = (
  λ o. let r = (Outside-append-cons y x xs ys).0 o.1 in (r.0, (o.0, r.1)),
  λ o. (o.1.0, (Outside-append-cons y x xs ys).1 (o.0, o.1.1)),
)

pub Distinct-append-cons :
    (x : ℕ) (xs ys : List ℕ) → Distinct (xs ++ (x ∷ ys)) ↔ Distinct (x ∷ (xs ++ ys))
Distinct-append-cons x [] ys = (λ d. d, λ d. d)
Distinct-append-cons x (a ∷ xs) ys = (
  λ d.
      let r = (Distinct-append-cons x xs ys).0 d.1 in
      let o = (Outside-append-cons a x xs ys).0 d.0 in ((λ e. o.0 (sym e), r.0), (o.1, r.1)),
  λ d. (
    (Outside-append-cons a x xs ys).1 (λ e. d.0.0 (sym e), d.1.0),
    (Distinct-append-cons x xs ys).1 (d.0.1, d.1.1),
  ),
)

pub length-append-cons :
    (x : ℕ) (xs ys : List ℕ) → length (xs ++ (x ∷ ys)) ≡ suc (length (xs ++ ys))
length-append-cons x [] ys = refl
length-append-cons x (z ∷ xs) ys = omega (arith, length-append-cons x xs ys)

pub Outside-append : (x : ℕ) (xs ys : List ℕ) → Outside x (xs ++ ys) → Outside x ys
Outside-append x [] ys o = o
Outside-append x (z ∷ xs) ys o = Outside-append x xs ys o.1

pub Outside-In : (x : ℕ) (xs : List ℕ) → Outside x xs → ¬ (In x xs)
Outside-In x (y ∷ xs) o (inl e) = o.0 e
Outside-In x (y ∷ xs) o (inr i) = Outside-In x xs o.1 i
Outside-In x [] o i = i

pub In-append_left : (y : ℕ) (xs ys : List ℕ) → In y xs → In y (xs ++ ys)
In-append_left y (x ∷ xs) ys (inl e) = inl e
In-append_left y (x ∷ xs) ys (inr i) = inr (In-append_left y xs ys i)
In-append_left y [] ys i = absurd i

pub In-append_right : (y : ℕ) (xs ys : List ℕ) → In y ys → In y (xs ++ ys)
In-append_right y [] ys i = i
In-append_right y (x ∷ xs) ys i = inr (In-append_right y xs ys i)

-- A page of the first list is not in the second.
pub Distinct-append : (y : ℕ) (xs ys : List ℕ) → Distinct (xs ++ ys) → In y xs → ¬ (In y ys)
Distinct-append y (x ∷ xs) ys d (inl e) i =
    Outside-In x (xs ++ ys) d.0 (In-append_right x xs ys (subst (λ z. In z ys) (sym e) i))
Distinct-append y (x ∷ xs) ys d (inr j) i = Distinct-append y xs ys d.1 j i
Distinct-append y [] ys d j i = j

pub Outside-of_all : (x : ℕ) (xs : List ℕ) → ((y : ℕ) → In y xs → y ≢ x) → Outside x xs
Outside-of_all x [] h = tt
Outside-of_all x (y ∷ xs) h = (h y (inl refl), Outside-of_all x xs (λ z i. h z (inr i)))
