-- ===== src/Upload/Transfer/Cells.antt =====
-- Blocks of bytes with their addresses, and how they are cut.
use midex_class_firmware.Base.{
  ℕ, zero, suc, ◌+◌, ◌-◌, ◌%◌, ◌≤◌, ◌≡◌, ◌∙◌, sym, ap, ap₂, refl, List, [], ◌∷◌, ◌++◌, length, take,
  drop, arith,
}

-- The bytes of a block, each with its address.
abbrev pub cells : ℕ → List ℕ → List (ℕ × ℕ)
cells at [] = []
cells at (b ∷ bs) = (at % 65536, b) ∷ cells (at + 1) bs

cells_wrap : (a b : ℕ) (bs : List ℕ) → a % 65536 ≡ b % 65536 → cells a bs ≡ cells b bs
cells_wrap a b [] h = refl
cells_wrap a b (x ∷ bs) h = ap₂ (λ n l. (n, x) ∷ l) h (cells_wrap (a + 1) (b + 1) bs (omega arith))

cells-append :
    (a k : ℕ) (bs : List ℕ)
    → k ≤ length bs
    → cells a bs ≡ cells a (take k bs) ++ cells (a + k) (drop k bs)
cells-append a zero bs h = ap (λ n. cells n bs) (omega arith)
cells-append a (suc k) [] h = absurd (omega arith)
cells-append a (suc k) (b ∷ bs) h =
    let next : a + 1 + k ≡ a + suc k = omega arith in
    ap (λ l. (a % 65536, b) ∷ l)
      (cells-append (a + 1) k bs (omega arith)
        ∙ ap (λ n. cells (a + 1) (take k bs) ++ cells n (drop k bs)) next)

pub length-drop : (k : ℕ) (bs : List ℕ) → length (drop k bs) ≡ length bs - k
length-drop zero bs = omega arith
length-drop (suc k) [] = omega arith
length-drop (suc k) (b ∷ bs) = length-drop k bs ∙ omega arith

pub length-take : (k : ℕ) (bs : List ℕ) → k ≤ length bs → length (take k bs) ≡ k
length-take zero bs h = refl
length-take (suc k) [] h = absurd (omega arith)
length-take (suc k) (b ∷ bs) h = ap suc (length-take k bs (omega arith))

drop_sum : (i k : ℕ) (bs : List ℕ) → drop k (drop i bs) ≡ drop (i + k) bs
drop_sum zero k bs = ap (λ n. drop n bs) (omega arith)
drop_sum (suc i) k [] = nil k ∙ sym (nil (suc i + k))
  where
    nil : (n : ℕ) → drop {A = ℕ} n [] ≡ []
    nil zero = refl
    nil (suc n) = refl
drop_sum (suc i) k (b ∷ bs) =
    let next : suc i + k ≡ suc (i + k) = omega arith in
    drop_sum i k bs ∙ ap (λ n. drop n (b ∷ bs)) (sym next)

pub cells-empty : (a : ℕ) (bs : List ℕ) → length bs ≡ 0 → cells a bs ≡ []
cells-empty a [] h = refl
cells-empty a (b ∷ bs) h = absurd (omega arith)

-- A first chunk of `k` bytes, and the rest.
pub cells-chunk :
    (a off k : ℕ) (bs : List ℕ)
    → off + k ≤ length bs
    → cells (a + off) (drop off bs)
      ≡ cells ((a + off) % 65536) (take k (drop off bs))
        ++ cells (a + (off + k)) (drop (off + k) bs)
cells-chunk a off k bs h =
    let sum : a + off + k ≡ a + (off + k) = omega arith in
    cells-append (a + off) k (drop off bs) (omega (arith, length-drop off bs))
    ∙ ap₂ ◌++◌ (cells_wrap (a + off) ((a + off) % 65536) (take k (drop off bs)) (omega arith))
        (ap₂ cells sum (drop_sum off k bs))
