-- ===== src/Types/Pagination/Pages.antt =====
-- The pages of a list, fetched one after the other, are the list.
use native.Mathlib.Nat.{zero-mul, suc-add, zero-add, suc-mul, add-zero, add_comm}
use portfolio_server.Types.Pagination.Bounds.{
  size_number, page_number, window_exact, from_total-total_pages, page_size_range,
}
use portfolio_server.Prelude.{
  ℕ, zero, suc, ◌+◌, ◌-◌, ◌*◌, ◌^◌, ◌≤◌, ◌<◌, ◌≡◌, refl, ℤ, pos, pos_part, List, [], ◌∷◌, ◌++◌,
  length, take, drop, unwrap_or, arith, ap, some, ◌∙◌, sym, ◌⊎◌, inl, inr,
}
use portfolio_server.Db.{window}
use portfolio_server.Types.Pagination.{PaginationQuery, page, page_size, limit, offset, from_total}

-- What a client gets that asks for `n` pages from page `p` on.
abbrev pub pages_from {ℓ} : {A : Type ℓ} → ℤ → ℕ → ℕ → List A → List A
pages_from size p zero xs = []
pages_from size p (suc n) xs =
    let q : PaginationQuery = record { page_field = pos p; page_size_field = size } in
    unwrap_or (window (limit q) (offset q) xs) [] ++ pages_from size (p + 1) n xs

abbrev asking : ℤ → ℕ → PaginationQuery
asking size p = record { page_field = pos p; page_size_field = size }

size_number_same : (size : ℤ) (p : ℕ) → size_number (asking size p) ≡ size_number (asking size 1)
unfolding page_size
size_number_same size p = refl

page_number_asked : (size : ℤ) (p : ℕ) → 1 ≤ p → page_number (asking size p) ≡ p
unfolding page
page_number_asked size p h = ground arith

next_start : (p s : ℕ) → 1 ≤ p → (p + 1 - 1) * s ≡ (p - 1) * s + s
next_start zero s h = absurd (omega arith)
next_start (suc p) s h =
    let e : suc p + 1 - 1 ≡ suc p = omega arith in
    let e' : suc p - 1 ≡ p = omega arith in rw (e, e') (suc-mul p s)

le-mul : (m s : ℕ) → 1 ≤ s → m ≤ m * s
le-mul m s h = grind arith

few_pages : (n s t : ℕ) → 1 ≤ s → ((n - 1) * s < t) ⊎ ((t ≡ 0) × (n ≡ 1)) → n ≤ t + 1
few_pages n s t h (inl few) = omega (arith, le-mul (n - 1) s h)
few_pages n s t h (inr (none', one)) = omega arith

module _ {ℓ} {A : Type ℓ} where
  take-append-take : (s m : ℕ) (xs : List A) → take s xs ++ take m (drop s xs) ≡ take (s + m) xs
  take-append-take zero m xs = rw zero-add
  take-append-take (suc s) zero [] = rw add-zero
  take-append-take (suc s) (suc m) [] = rw suc-add
  take-append-take (suc s) m (x ∷ xs) = rw suc-add (ap (λ t. x ∷ t) (take-append-take s m xs))

  drop-drop : (s m : ℕ) (xs : List A) → drop s (drop m xs) ≡ drop (m + s) xs
  drop-drop s zero xs = rw zero-add
  drop-drop zero (suc m) [] = rw add-zero
  drop-drop (suc s) (suc m) [] = rw suc-add
  drop-drop s (suc m) (x ∷ xs) = rw suc-add (drop-drop s m xs)

  take_all : (n : ℕ) (xs : List A) → length xs ≤ n → take n xs ≡ xs
  take_all zero [] h = refl
  take_all zero (x ∷ xs) h = absurd (omega arith)
  take_all (suc n) [] h = refl
  take_all (suc n) (x ∷ xs) h = ap (λ t. x ∷ t) (take_all n xs (omega arith))

  page_rows :
      (size : ℤ) (p : ℕ) (xs : List A)
      → 1 ≤ p
      → p ≤ 2 ^ 58
      → window (limit (asking size p)) (offset (asking size p)) xs
        ≡ some
            (take (size_number (asking size 1)) (drop ((p - 1) * size_number (asking size 1)) xs))
  page_rows size p xs lo hi =
      let number = page_number_asked size p lo in
      let (l, o, _, _) = window_exact (asking size p) (omega (arith, number)) in
      rw (l, o, number, size_number_same size p)

  pages_from-take :
      (size : ℤ) (p n : ℕ) (xs : List A)
      → 1 ≤ p
      → p + n ≤ 2 ^ 58
      → pages_from size p n xs
        ≡ take (n * size_number (asking size 1)) (drop ((p - 1) * size_number (asking size 1)) xs)
  pages_from-take size p zero xs lo hi = rw zero-mul
  pages_from-take size p (suc n) xs lo hi =
      let s = size_number (asking size 1) in
      let start = (p - 1) * s in
      rw
        (
          page_rows size p xs lo (omega arith),
          pages_from-take size (p + 1) n xs (omega arith) (omega arith),
        )
        (rw (next_start p s lo, ← drop-drop s start xs, take-append-take s (n * s) (drop start xs))
          (ap (λ k. take k (drop start xs)) (add_comm s (n * s) ∙ sym (suc-mul n s))))

  -- Asking for the pages 1, 2, … up to the reported number of pages, at any page size, gives each
  -- row once, in order, for up to 2^57 rows.
  pub pages_complete :
      (size : ℤ) (first : ℕ) (xs : List A)
      → length xs ≤ 2 ^ 57
      → pages_from size 1
          (pos_part (from_total (pos (length xs)) (asking size first)).total_pages)
          xs
        ≡ xs
  pages_complete size first xs h =
      let s = size_number (asking size 1) in
      let (n, e, enough, _, few) =
        from_total-total_pages (length xs) (asking size first) (omega arith) in
      let n_small : n ≤ 2 ^ 57 + 1 = omega (
        arith,
        few_pages n (size_number (asking size first)) (length xs)
            (page_size_range (asking size first)).1 few,
      ) in
      rw (e, pages_from-take size 1 n xs (omega arith) (omega arith))
        (rw (zero-mul s) (take_all (n * s) xs (rw (← size_number_same size first) enough)))
