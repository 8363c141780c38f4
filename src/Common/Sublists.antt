-- ===== src/Common/Sublists.antt =====
-- Subsequences of lists, untruncated.
use mathlib.Core.Path.{refl, ◌∙◌}
use mathlib.Core.List.{List, [], ◌∷◌, ◌++◌, Sublistᴰ}

module _ {A : Type 0} where
  pub Sublistᴰ-nil : (xs : List A) → Sublistᴰ [] xs
  Sublistᴰ-nil [] = Sublistᴰ.slnil
  Sublistᴰ-nil (x ∷ xs) = Sublistᴰ.cons (Sublistᴰ-nil xs)

  pub Sublistᴰ-same : (xs : List A) → Sublistᴰ xs xs
  Sublistᴰ-same [] = Sublistᴰ.slnil
  Sublistᴰ-same (x ∷ xs) = Sublistᴰ.cons-cons refl (Sublistᴰ-same xs)

  pub Sublistᴰ-left : (xs ys : List A) → Sublistᴰ xs (xs ++ ys)
  Sublistᴰ-left [] ys = Sublistᴰ-nil ys
  Sublistᴰ-left (x ∷ xs) ys = Sublistᴰ.cons-cons refl (Sublistᴰ-left xs ys)

  pub Sublistᴰ-append :
      {xs ys : List A} (zs : List A) → Sublistᴰ xs ys → Sublistᴰ (xs ++ zs) (ys ++ zs)
  Sublistᴰ-append zs Sublistᴰ.slnil = Sublistᴰ-same zs
  Sublistᴰ-append zs (Sublistᴰ.cons h) = Sublistᴰ.cons (Sublistᴰ-append zs h)
  Sublistᴰ-append zs (Sublistᴰ.cons-cons e h) = Sublistᴰ.cons-cons e (Sublistᴰ-append zs h)

  trans_from : {ys zs : List A} → Sublistᴰ ys zs → (xs : List A) → Sublistᴰ xs ys → Sublistᴰ xs zs
  trans_from Sublistᴰ.slnil xs h = h
  trans_from (Sublistᴰ.cons k) xs h = Sublistᴰ.cons (trans_from k xs h)
  trans_from (Sublistᴰ.cons-cons e k) xs (Sublistᴰ.cons h) = Sublistᴰ.cons (trans_from k xs h)
  trans_from (Sublistᴰ.cons-cons e k) (x ∷ xs) (Sublistᴰ.cons-cons d h) =
      Sublistᴰ.cons-cons (d ∙ e) (trans_from k xs h)

  pub Sublistᴰ-trans : {xs ys zs : List A} → Sublistᴰ xs ys → Sublistᴰ ys zs → Sublistᴰ xs zs
  Sublistᴰ-trans {xs} h k = trans_from k xs h
