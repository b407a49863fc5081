-- ===== src/Node/Memory/Stretch.antt =====
-- Taking from and dropping of lists of bytes, one after the other.
use usbsec.Base.{
  ℕ, zero, suc, ◌+◌, ◌-◌, ◌≤◌, ◌≡◌, refl, ap, ◌∙◌, sym, List, [], ◌∷◌, ◌++◌, length, take, drop,
  arith,
}

drop-nothing : (k : ℕ) → drop {A = ℕ} k [] ≡ []
drop-nothing zero = refl
drop-nothing (suc k) = refl

take-nothing : (k : ℕ) → take {A = ℕ} k [] ≡ []
take-nothing zero = refl
take-nothing (suc k) = refl

pub drop-drop : (m n : ℕ) (xs : List ℕ) → drop n (drop m xs) ≡ drop (m + n) xs
drop-drop zero n xs = let same : n ≡ zero + n = omega arith in ap (λ k. drop k xs) same
drop-drop (suc m) n [] = drop-nothing n ∙ sym (drop-nothing (suc m + n))
drop-drop (suc m) n (x ∷ xs) =
    let same : suc (m + n) ≡ suc m + n = omega arith in
    drop-drop m n xs ∙ ap (λ k. drop k (x ∷ xs)) same

pub drop-take : (k n : ℕ) (xs : List ℕ) → drop k (take n xs) ≡ take (n - k) (drop k xs)
drop-take zero n xs = let same : n ≡ n - zero = omega arith in ap (λ j. take j xs) same
drop-take (suc k) zero xs =
    let same : zero - suc k ≡ 0 = omega arith in ap (λ j. take j (drop (suc k) xs)) (sym same)
drop-take (suc k) (suc n) [] = sym (take-nothing (suc n - suc k))
drop-take (suc k) (suc n) (x ∷ xs) =
    let same : n - k ≡ suc n - suc k = omega arith in
    drop-take k n xs ∙ ap (λ j. take j (drop k xs)) same

pub drop-front : (k : ℕ) (xs ys : List ℕ) → k ≤ length xs → drop k (xs ++ ys) ≡ drop k xs ++ ys
drop-front zero xs ys h = refl
drop-front (suc k) [] ys h = absurd (omega arith)
drop-front (suc k) (x ∷ xs) ys h = drop-front k xs ys (omega arith)

pub append-nothing : (xs : List ℕ) → xs ++ [] ≡ xs
append-nothing [] = refl
append-nothing (x ∷ xs) = ap (x ∷◌) (append-nothing xs)

pub append_assoc : (xs ys zs : List ℕ) → (xs ++ ys) ++ zs ≡ xs ++ (ys ++ zs)
append_assoc [] ys zs = refl
append_assoc (x ∷ xs) ys zs = ap (x ∷◌) (append_assoc xs ys zs)
