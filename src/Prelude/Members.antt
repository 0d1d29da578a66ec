-- ===== src/Prelude/Members.antt =====
-- Membership as data, and what a list's end adds to it.
use mathlib.Core.Path.{◌≡◌, refl, ap, ◌∙◌}
use mathlib.Core.Logic.{◌⊎◌, inl, inr}
use mathlib.Core.Bool.{Bool, true, false}
use mathlib.Core.Option.{none, some}
use mathlib.Core.List.{List, [], ◌∷◌, ◌++◌, Memᴰ}
use native.Mathlib.Omega.{arith}
use kin_gateway.Prelude.Lists.{find_first, keep}
use kin_gateway.Prelude.Tests.{if◌then◌else◌}

module _ {ℓ} {A : Type ℓ} where
  pub mem_snoc : (xs : List A) (x q : A) → Memᴰ q (xs ++ x ∷ []) → Memᴰ q xs ⊎ (q ≡ x)
  mem_snoc [] x q (Memᴰ.head p) = inr p
  mem_snoc [] x q (Memᴰ.tail m) = elim m [ ]
  mem_snoc (y ∷ ys) x q (Memᴰ.head p) = inl (Memᴰ.head p)
  mem_snoc (y ∷ ys) x q (Memᴰ.tail m) = elim (mem_snoc ys x q m) [
    | inl there ↦ inl (Memᴰ.tail there)
    | inr here ↦ inr here
  ]

  -- Where no member passes a test, each member fails it.
  pub find_first-none :
      (p : A → Bool) (xs : List A) (q : A) → find_first p xs ≡ none → Memᴰ q xs → p q ≡ false
  find_first-none p [] q h m = elim m [ ]
  find_first-none p (x ∷ xs) q h (Memᴰ.head e) = ground (arith, e)
  find_first-none p (x ∷ xs) q h (Memᴰ.tail m) =
      ground (arith, find_first-none p xs q (ground arith) m)

  -- The member at the end is found where no other passes the test.
  pub find_first_snoc :
      (p : A → Bool) (xs : List A) (x : A)
      → find_first p xs ≡ none
      → p x ≡ true
      → find_first p (xs ++ x ∷ []) ≡ some x
  find_first_snoc p [] x h t = rw t
  find_first_snoc p (y ∷ ys) x h t = ground (arith, find_first_snoc p ys x)

  -- What is found in a list is found where the list grows at its end.
  pub find_first_append :
      (p : A → Bool) (xs ys : List A) (x : A)
      → find_first p xs ≡ some x
      → find_first p (xs ++ ys) ≡ some x
  find_first_append p [] ys x h = cc
  find_first_append p (z ∷ zs) ys x h = ground (arith, find_first_append p zs ys x)

module _ {ℓ} {A : Type ℓ} (p : A → Bool) where
  mem_kept :
      (b : Bool) (x : A) (rest : List A) (q : A)
      → p x ≡ b
      → Memᴰ q (if b then x ∷ rest else rest)
      → ((q ≡ x) × (p x ≡ true)) ⊎ Memᴰ q rest
  mem_kept true x rest q h (Memᴰ.head e) = inl (e, h)
  mem_kept true x rest q h (Memᴰ.tail m) = inr m
  mem_kept false x rest q h m = inr m

  -- What a filter keeps stands in the list and passes the test.
  pub mem_keep : (xs : List A) (q : A) → Memᴰ q (keep p xs) → Memᴰ q xs × (p q ≡ true)
  mem_keep [] q m = elim m [ ]
  mem_keep (x ∷ xs) q m = elim (mem_kept (p x) x (keep p xs) q refl m) [
    | inl (e, h) ↦ (Memᴰ.head e, ap p e ∙ h)
    | inr there ↦ let (m', h) = mem_keep xs q there in (Memᴰ.tail m', h)
  ]
