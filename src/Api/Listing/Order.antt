-- ===== src/Api/Listing/Order.antt =====
-- Ordering and cutting into pages: what `ORDER BY … DESC LIMIT … OFFSET …` gives.
use aigis_zero.Api.Listing.{filter, insert_desc, order_desc, limited}
use aigis_zero.Prelude.{
  ℕ, zero, suc, ◌+◌, ◌*◌, ◌≤◌, Bool, true, false, List, [], ◌∷◌, ◌++◌, map, ◌≡◌, refl, ap, ap₂, sym,
  ◌∙◌, arith, length, take, drop, map-append, Bool-cases, inl, inr, if◌then◌else◌, if_elim, All,
  leb, ◌==◌,
}

-- How many rows pass a test: two lists with equal counts for every test have the same rows, each as
-- often.
unfoldable pub count {ℓ} : {A : Type ℓ} → (A → Bool) → List A → ℕ
count test [] = 0
count test (x ∷ xs) = if test x then suc (count test xs) else count test xs

module _ {ℓ} {A : Type ℓ} where
  module _ (at_least : A → A → Bool) where
    count-insert_desc :
        (test : A → Bool) (x : A) (xs : List A)
        → count test (insert_desc at_least x xs) ≡ count test (x ∷ xs)
    unfolding count insert_desc
    count-insert_desc test x [] = refl
    count-insert_desc test x (y ∷ ys) = ground (arith, count-insert_desc test x ys)

    -- Ordering keeps the rows.
    pub count-order_desc :
        (test : A → Bool) (xs : List A) → count test (order_desc at_least xs) ≡ count test xs
    unfolding count order_desc
    count-order_desc test [] = refl
    count-order_desc test (x ∷ xs) =
        count-insert_desc test x (order_desc at_least xs)
        ∙ ap (λ n. if test x then suc n else n) (count-order_desc test xs)

count-length {ℓ} : {A : Type ℓ} (xs : List A) → count (λ x. true) xs ≡ length xs
unfolding count
count-length [] = refl
count-length (x ∷ xs) = ap suc (count-length xs)

pub length-order_desc {ℓ} :
    {A : Type ℓ} (at_least : A → A → Bool) (xs : List A)
    → length (order_desc at_least xs) ≡ length xs
length-order_desc at_least xs =
    sym (count-length (order_desc at_least xs))
    ∙ count-order_desc at_least (λ x. true) xs
    ∙ count-length xs

module _ {ℓ} {A : Type ℓ} (at_least : A → A → Bool) where
  -- The first row, if there is one, is at most the given one.
  abbrev pub Below : A → List A → Type 0
  Below x [] = Unit
  Below x (y ∷ ys) = at_least x y ≡ true

  -- The rows descend: each is at least the next.
  abbrev pub Descends : List A → Type 0
  Descends [] = Unit
  Descends (x ∷ xs) = Below x xs × Descends xs

  Below-take : (n : ℕ) (x : A) (xs : List A) → Below x xs → Below x (take n xs)
  Below-take zero x xs h = tt
  Below-take (suc n) x [] h = tt
  Below-take (suc n) x (y ∷ ys) h = h

  pub Descends-take : (n : ℕ) (xs : List A) → Descends xs → Descends (take n xs)
  Descends-take zero xs h = tt
  Descends-take (suc n) [] h = tt
  Descends-take (suc n) (x ∷ xs) h = (Below-take n x xs h.0, Descends-take n xs h.1)

  module _ (total : (x y : A) → at_least x y ≡ false → at_least y x ≡ true) where
    Below-insert_desc :
        (x y : A) (ys : List A)
        → at_least y x ≡ true
        → Below y ys
        → Below y (insert_desc at_least x ys)
    unfolding insert_desc
    Below-insert_desc x y [] h k = h
    Below-insert_desc x y (z ∷ zs) h k = if_elim (Below y) (at_least x z) h k

    Descends-insert_desc :
        (x : A) (xs : List A) → Descends xs → Descends (insert_desc at_least x xs)
    unfolding insert_desc
    Descends-insert_desc x [] h = (tt, tt)
    Descends-insert_desc x (y ∷ ys) h = elim (Bool-cases (at_least x y)) [
      | inl e ↦ rw e (e, h)
      | inr e ↦ rw e (Below-insert_desc x y ys (total x y e) h.0, Descends-insert_desc x ys h.1)
    ]

    -- Ordering orders.
    pub Descends-order_desc : (xs : List A) → Descends (order_desc at_least xs)
    unfolding order_desc
    Descends-order_desc [] = tt
    Descends-order_desc (x ∷ xs) =
        Descends-insert_desc x (order_desc at_least xs) (Descends-order_desc xs)

pub map-Descends {ℓ κ} :
    {A : Type ℓ} {B : Type κ} (at_least : B → B → Bool) (f : A → B) (xs : List A)
    → Descends (λ a b. at_least (f a) (f b)) xs
    → Descends at_least (map f xs)
map-Descends at_least f [] h = tt
map-Descends at_least f (x ∷ []) h = (tt, tt)
map-Descends at_least f (x ∷ y ∷ ys) h = (h.0, map-Descends at_least f (y ∷ ys) h.1)

module _ {ℓ} {A : Type ℓ} where
  -- The pages of a listing one after the other, from the first on.
  unfoldable pub walk : (ℕ → List A) → ℕ → List A
  walk page zero = []
  walk page (suc n) = walk page n ++ page n

  pub walk-cong : (f g : ℕ → List A) → ((i : ℕ) → f i ≡ g i) → (n : ℕ) → walk f n ≡ walk g n
  unfolding walk
  walk-cong f g h zero = refl
  walk-cong f g h (suc n) = ap₂ (λ x y. x ++ y) (walk-cong f g h n) (h n)

  take_nil : (n : ℕ) → take {A = A} n [] ≡ []
  take_nil zero = refl
  take_nil (suc n) = refl

  take_add : (m k : ℕ) (xs : List A) → take (m + k) xs ≡ take m xs ++ take k (drop m xs)
  take_add zero k xs = let e : 0 + k ≡ k = omega arith in rw e refl
  take_add (suc m) zero [] = rw (take_nil (suc m + 0)) refl
  take_add (suc m) (suc k) [] = rw (take_nil (suc m + suc k)) refl
  take_add (suc m) k (x ∷ xs) =
      let e : suc m + k ≡ suc (m + k) = omega arith in rw e (ap (◌∷◌ x) (take_add m k xs))

  -- Pages of the same size cover the list from its start without gap or overlap.
  pub walk-limited :
      (limit n : ℕ) (xs : List A) → walk (λ i. limited limit (i * limit) xs) n ≡ take (n * limit) xs
  unfolding walk
  walk-limited limit zero xs = let e : 0 * limit ≡ 0 = omega arith in rw e refl
  walk-limited limit (suc n) xs =
      let e : suc n * limit ≡ n * limit + limit = grind arith in
      ap (λ p. p ++ limited limit (n * limit) xs) (walk-limited limit n xs)
      ∙ sym (take_add (n * limit) limit xs)
      ∙ ap (λ k. take k xs) (sym e)

  pub take_all : (n : ℕ) (xs : List A) → length xs ≤ n → take n xs ≡ xs
  take_all zero [] h = refl
  take_all zero (x ∷ xs) h = absurd (omega arith)
  take_all (suc n) [] h = refl
  take_all (suc n) (x ∷ xs) h = ap (◌∷◌ x) (take_all n xs (omega arith))

pub count-map {ℓ κ} :
    {A : Type ℓ} {B : Type κ} (test : B → Bool) (f : A → B) (xs : List A)
    → count test (map f xs) ≡ count (λ x. test (f x)) xs
unfolding count
count-map test f [] = refl
count-map test f (x ∷ xs) = ap (λ n. if test (f x) then suc n else n) (count-map test f xs)

-- All rows of the filter pass it.
pub filter-All {ℓ} :
    {A : Type ℓ} (keep : A → Bool) (xs : List A) → All (λ x. keep x ≡ true) (filter keep xs)
unfolding filter
filter-All keep [] = tt
filter-All keep (x ∷ xs) = elim (Bool-cases (keep x)) [
  | inl e ↦ rw e (e, filter-All keep xs)
  | inr e ↦ rw e (filter-All keep xs)
]

module _ {ℓ κ} {A : Type ℓ} (P : A → Type κ) where
  All-insert_desc :
      (at_least : A → A → Bool) (x : A) (xs : List A)
      → P x
      → All P xs
      → All P (insert_desc at_least x xs)
  unfolding insert_desc
  All-insert_desc at_least x [] h k = (h, tt)
  All-insert_desc at_least x (y ∷ ys) h k =
      if_elim (All P) (at_least x y) (h, k) (k.0, All-insert_desc at_least x ys h k.1)

  pub All-order_desc :
      (at_least : A → A → Bool) (xs : List A) → All P xs → All P (order_desc at_least xs)
  unfolding order_desc
  All-order_desc at_least [] h = tt
  All-order_desc at_least (x ∷ xs) h =
      All-insert_desc at_least x (order_desc at_least xs) h.0 (All-order_desc at_least xs h.1)

  pub All-take : (n : ℕ) (xs : List A) → All P xs → All P (take n xs)
  All-take zero xs h = tt
  All-take (suc n) [] h = tt
  All-take (suc n) (x ∷ xs) h = (h.0, All-take n xs h.1)

pub walk-map {ℓ κ} :
    {A : Type ℓ} {B : Type κ} (f : A → B) (page : ℕ → List A) (n : ℕ)
    → walk (λ i. map f (page i)) n ≡ map f (walk page n)
unfolding walk
walk-map f page zero = refl
walk-map f page (suc n) =
    ap (λ p. p ++ map f (page n)) (walk-map f page n) ∙ sym (map-append f (walk page n) (page n))

module _ {A : Type 0} (key : A → ℕ) where
  abbrev pub by : A → A → Bool
  by a b = leb (key b) (key a)

  -- The same rows in another order, in which rows with equal keys follow each other as before.
  pub data Reordered : List A → List A → Type 0 where
    same : (xs : List A) → Reordered xs xs
    keep : (x : A) {xs ys : List A} → Reordered xs ys → Reordered (x ∷ xs) (x ∷ ys)
    swap : (x y : A) (xs : List A) → (key x == key y) ≡ false → Reordered (x ∷ y ∷ xs) (y ∷ x ∷ xs)
    next : {xs ys zs : List A} → Reordered xs ys → Reordered ys zs → Reordered xs zs

  insert_desc_comm :
      (x y : A) (xs : List A)
      → (key x == key y) ≡ false
      → insert_desc by x (insert_desc by y xs) ≡ insert_desc by y (insert_desc by x xs)
  unfolding insert_desc
  insert_desc_comm x y [] h = ground arith
  insert_desc_comm x y (z ∷ zs) h = ground (arith, insert_desc_comm x y zs h)

  -- Rows that are filtered and ordered do not show the order that they had.
  pub order_desc-filter :
      (test : A → Bool) {xs ys : List A}
      → Reordered xs ys
      → order_desc by (filter test xs) ≡ order_desc by (filter test ys)
  unfolding order_desc filter
  order_desc-filter test (same xs) = refl
  order_desc-filter test (keep x r) = elim (Bool-cases (test x)) [
    | inl e ↦ rw e (ap (insert_desc by x) (order_desc-filter test r))
    | inr e ↦ rw e (order_desc-filter test r)
  ]
  order_desc-filter test (swap x y xs h) = elim (Bool-cases (test x)) [
    | inl e ↦ elim (Bool-cases (test y)) [
      | inl f ↦ rw (e, f) (insert_desc_comm x y (order_desc by (filter test xs)) h)
      | inr f ↦ rw (e, f) refl
    ]
    | inr e ↦ elim (Bool-cases (test y)) [ inl f ↦ rw (e, f) refl | inr f ↦ rw (e, f) refl ]
  ]
  order_desc-filter test (next r t) = order_desc-filter test r ∙ order_desc-filter test t
