-- ===== src/Operator/Copies/Stores.antt =====
-- Stores that grow, and what a copy needs of them.
use mathlib.Core.List.{append_assoc, append-nil}
use tailpost.Base.{
  ℕ, zero, suc, ◌≤◌, ◌<◌, List, [], ◌∷◌, ◌++◌, ◌≡◌, refl, sym, ap, ◌∙◌, arith, Option, none, some,
  length, length-append,
}
use tailpost.Operator.Copies.{Cell, get, put, Store, at, new_cell, copy_pointer}

module _ {A : Type 0} where
  get-append : (h xs : List A) (a : ℕ) → a < length h → get (h ++ xs) a ≡ get h a
  get-append [] xs a l = absurd (omega (arith, l))
  get-append (c ∷ h) xs zero l = refl
  get-append (c ∷ h) xs (suc a) l = get-append h xs a (omega (arith, l))

  get-last : (h : List A) (c : A) → get (h ++ (c ∷ [])) (length h) ≡ some c
  get-last [] c = refl
  get-last (b ∷ h) c = get-last h c

  pub get-put : (n : ℕ) (x : A) (h : List A) (a : ℕ) → n < a → get (put n x h) a ≡ get h a
  get-put n x [] a l = refl
  get-put zero x (c ∷ h) zero l = absurd (omega (arith, l))
  get-put zero x (c ∷ h) (suc a) l = refl
  get-put (suc n) x (c ∷ h) zero l = absurd (omega (arith, l))
  get-put (suc n) x (c ∷ h) (suc a) l = get-put n x h a (omega (arith, l))

  -- A store with cells behind those that are there.
  abbrev pub Grows : List A → List A → Type 0
  Grows h k = (xs : List A) × (k ≡ h ++ xs)

  Grows-trans : (h i k : List A) → Grows h i → Grows i k → Grows h k
  Grows-trans h i k (xs, e) (ys, f) =
      (xs ++ ys, f ∙ ap (λ (l : List A). l ++ ys) e ∙ append_assoc h xs ys)

  Grows-length : (h k : List A) → Grows h k → length h ≤ length k
  Grows-length h k (xs, e) = omega (arith, ap (λ (l : List A). length l) e, length-append h xs)

  get-Grows : (h k : List A) (a : ℕ) → Grows h k → a < length h → get k a ≡ get h a
  get-Grows h k a (xs, e) l = ap (λ (m : List A). get m a) e ∙ get-append h xs a l

  -- Two stores have the same cells from `l` to `u`.
  abbrev pub Agree : ℕ → ℕ → List A → List A → Type 0
  Agree l u g k = (a : ℕ) → l ≤ a → a < u → get g a ≡ get k a

  -- The part that a copy has made: what `g` needs to have of `k`.
  Agree-first :
      (l : ℕ) (g i k : List A) → Grows i k → Agree l (length k) g k → Agree l (length i) g i
  Agree-first l g i k w h a b c = h a b (omega (arith, c, Grows-length i k w)) ∙ get-Grows i k a w c

  Agree-rest :
      (h g i k : List A)
      → Grows h i
      → Agree (length h) (length k) g k
      → Agree (length i) (length k) g k
  Agree-rest h g i k w f a b c = f a (omega (arith, b, Grows-length h i w)) c

module _ {Selector : Type 0} where
  -- A pointer is nil or has a cell.
  abbrev pub IsValid : Store Selector → Option ℕ → Type 0
  IsValid h none = Unit
  IsValid h (some a) = a < length h

  pub at-Grows : (h k : Store Selector) (p : Option ℕ) → Grows h k → IsValid h p → at k p ≡ at h p
  at-Grows h k none w v = refl
  at-Grows h k (some a) w v = get-Grows h k a w v

  pub valid-Grows : (h k : Store Selector) (p : Option ℕ) → Grows h k → IsValid h p → IsValid k p
  valid-Grows h k none w v = tt
  valid-Grows h k (some a) w v = omega (arith, v, Grows-length h k w)

  -- A copy makes `k` of `h`, and `P` holds of each store that has its new cells.
  pub record Copied (h k : Store Selector) (P : Store Selector → Type 0) : Type 0 where
    pub grows : Grows h k
    pub holds : (g : Store Selector) → Agree (length h) (length k) g k → P g

  pub both :
      (h i k : Store Selector) (P Q : Store Selector → Type 0)
      → Copied h i P
      → Copied i k Q
      → Copied h k (λ g. P g × Q g)
  both h i k P Q c d = record {
    grows = Grows-trans h i k c.grows d.grows;
    holds = λ g f. (
      c.holds g (Agree-first (length h) g i k d.grows f),
      d.holds g (Agree-rest h g i k c.grows f),
    );
  }

  pub new_cell_lem :
      (c : Option (Cell Selector)) (h : Store Selector)
      → Copied h (new_cell c h).1 (λ g. at g (new_cell c h).0 ≡ c)
  new_cell_lem none h = record { grows = ([], sym (append-nil h)); holds = λ g f. refl }
  new_cell_lem (some c) h = record {
    grows = (c ∷ [], refl);
    holds =
        λ g f. f (length h) (omega arith) (omega (arith, length-append h (c ∷ []))) ∙ get-last h c;
  }

  pub copy_pointer_lem :
      (p : Option ℕ) (h : Store Selector)
      → Copied h (copy_pointer p h).1 (λ g. at g (copy_pointer p h).0 ≡ at h p)
  unfolding copy_pointer
  copy_pointer_lem p h = new_cell_lem (at h p) h
